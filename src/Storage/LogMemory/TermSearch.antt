-- ===== src/Storage/LogMemory/TermSearch.antt =====
-- The search for the last index of a term.
use native.Mathlib.Decide.{dec_le}
use raft_based_distributed_l.Prelude.{
  true, false, subst, ℕ, zero, suc, ◌≤◌, ◌<◌, ◌≡◌, ◌≢◌, refl, ◌⊎◌, inl, inr, arith, Bool-cases,
  ==_iff, ne→==-false, ◌==◌,
}
use raft_based_distributed_l.Exec.{Result, ok, err, no_specific_term}
use raft_based_distributed_l.Storage.LogEntry.{LogEntry}
use raft_based_distributed_l.Storage.LogMemory.{
  LogMemory, fetch_log_entry, search_term, fetch_last_index_of_term,
}
use raft_based_distributed_l.Storage.LogMemory.Contents.{IsContiguous}

-- The index `i` is the last one up to `n` whose entry has the term.
pub record IsLast (lm : LogMemory) (term n i : ℕ) : Type 0 where
  pub positive : 0 < i
  pub top : i ≤ n
  pub entry : LogEntry
  pub found : fetch_log_entry lm i ≡ ok entry
  pub has_term : entry.entry.term ≡ term
  pub later :
      (j : ℕ) (e : LogEntry) → i < j → j ≤ n → fetch_log_entry lm j ≡ ok e → e.entry.term ≢ term

-- No index from 1 to `n` has an entry of the term.
abbrev pub HasNone : LogMemory → ℕ → ℕ → Type 0
HasNone lm term n =
    (j : ℕ) (e : LogEntry) → 0 < j → j ≤ n → fetch_log_entry lm j ≡ ok e → e.entry.term ≢ term

-- What the search from `n` downwards answers.
abbrev pub Searched : LogMemory → ℕ → ℕ → Result ℕ → Type 0
Searched lm term n r =
    ((i : ℕ) × (r ≡ ok i) × IsLast lm term n i) ⊎ ((r ≡ err no_specific_term) × HasNone lm term n)

pub fetch_present :
    (lm : LogMemory) (i : ℕ)
    → IsContiguous lm
    → 0 < i
    → i ≤ lm.maximum_index
    → (e : LogEntry) × (fetch_log_entry lm i ≡ ok e) × (e.entry.index ≡ i)
unfolding fetch_log_entry
fetch_present lm i v pos top =
    let (e, at) = v.present i pos top in (e, ground arith, v.valid.indexed i e at)

-- The entry at the top of a longer range has another term.
top-ne :
    (lm : LogMemory) (term n j : ℕ) (e x : LogEntry)
    → fetch_log_entry lm (suc n) ≡ ok e
    → (e.entry.term == term) ≡ false
    → ¬ (j ≤ n)
    → j ≤ suc n
    → fetch_log_entry lm j ≡ ok x
    → x.entry.term ≢ term
top-ne lm term n j e x at miss above le f =
    let same : j ≡ suc n = omega arith in
    let f' = subst (λ k. fetch_log_entry lm k ≡ ok x) same f in ground arith

search_term-Searched :
    (lm : LogMemory) (term n : ℕ)
    → IsContiguous lm
    → n ≤ lm.maximum_index
    → Searched lm term n (search_term lm term n)
unfolding search_term
search_term-Searched lm term zero v h = inr (refl, λ j e pos top. absurd (omega arith))
search_term-Searched lm term (suc n) v h =
    let (e, at, _) = fetch_present lm (suc n) v (omega arith) h in
    step e at (Bool-cases (e.entry.term == term)) (search_term-Searched lm term n v (omega arith))
  where
    step :
        (e : LogEntry)
        → fetch_log_entry lm (suc n) ≡ ok e
        → ((e.entry.term == term) ≡ true) ⊎ ((e.entry.term == term) ≡ false)
        → Searched lm term n (search_term lm term n)
        → Searched lm term (suc n) (search_term lm term (suc n))
    step e at (inl hit) rest = inl (
      suc n,
      ground arith,
      record {
        positive = omega arith;
        top = omega arith;
        entry = e;
        found = at;
        has_term = (==_iff _ _).0 hit;
        later = λ j x lt le f. absurd (omega arith);
      },
    )
    step e at (inr miss) (inl (i, r, last)) = inl (
      i,
      ground arith,
      record {
        positive = last.positive;
        top = omega (arith, last.top);
        entry = last.entry;
        found = last.found;
        has_term = last.has_term;
        later = λ j x lt le f. elim (dec_le j n) [
          | yes low ↦ last.later j x lt low f
          | no high ↦ top-ne lm term n j e x at miss high le f
        ];
      },
    )
    step e at (inr miss) (inr (r, nothing)) = inr (
      ground arith,
      λ j x pos le f. elim (dec_le j n) [
        | yes low ↦ nothing j x pos low f
        | no high ↦ top-ne lm term n j e x at miss high le f
      ],
    )

-- On a log without gaps, the search for a term other than 0 answers with the last index that has
-- an entry of the term, or that there is none if no entry has it.
pub fetch_last_index_of_term-Searched :
    (lm : LogMemory) (term : ℕ)
    → IsContiguous lm
    → term ≢ 0
    → Searched lm term lm.maximum_index (fetch_last_index_of_term lm term)
unfolding fetch_last_index_of_term
fetch_last_index_of_term-Searched lm term v ne =
    rw (ne→==-false term 0 ne) (search_term-Searched lm term lm.maximum_index v (omega arith))
