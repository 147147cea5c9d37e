-- ===== src/Storage/LogMemory/Contents.antt =====
-- What a run of consecutive entries leaves in the log, and logs without gaps.
use native.Mathlib.Decide.{dec_le, dec_lt}
use raft_based_distributed_l.Exec.{ok}
use raft_based_distributed_l.Prelude.{
  ◌-◌, ◌<◌, ◌∙◌, zero, ℕ, suc, ◌+◌, ◌≤◌, ◌<◌, ◌≡◌, refl, some, List, [], ◌∷◌, length, get_elem?,
  arith, max,
}
use raft_based_distributed_l.Storage.LogEntry.{LogEntry}
use raft_based_distributed_l.Storage.LogMemory.{
  LogMemory, insert, insert_log_entry, insert_valid_entry_list,
}
use raft_based_distributed_l.Storage.LogMemory.Laws.{IsValid, insert_valid_entry_list-IsValid}

-- The entries carry the indexes `prev + 1`, `prev + 2`, …
abbrev pub IndexedFrom : ℕ → List LogEntry → Type 0
IndexedFrom prev [] = Unit {0}
IndexedFrom prev (e ∷ es) = (e.entry.index ≡ prev + 1) × IndexedFrom (prev + 1) es

-- Every index from 1 to the maximum has an entry.
pub record IsContiguous (lm : LogMemory) : Type 0 where
  pub valid : IsValid lm
  pub present :
      (i : ℕ) → 0 < i → i ≤ lm.maximum_index → (e : LogEntry) × (lm.log_in_memory i ≡ some e)

pub lookup-insert_list_old :
    (es : List LogEntry) (prev : ℕ) (lm : LogMemory) (j : ℕ)
    → IndexedFrom prev es
    → j ≤ prev
    → (insert_valid_entry_list es lm).1.log_in_memory j ≡ lm.log_in_memory j
unfolding insert_valid_entry_list insert_log_entry
lookup-insert_list_old [] prev lm j h le = refl
lookup-insert_list_old (e ∷ es) prev lm j h le =
    ground (arith, lookup-insert_list_old es (prev + 1) (insert e lm) j h.1 (omega arith))

pub lookup-insert_list_above :
    (es : List LogEntry) (prev : ℕ) (lm : LogMemory) (j : ℕ)
    → IndexedFrom prev es
    → prev + length es < j
    → (insert_valid_entry_list es lm).1.log_in_memory j ≡ lm.log_in_memory j
unfolding insert_valid_entry_list insert_log_entry
lookup-insert_list_above [] prev lm j h lt = refl
lookup-insert_list_above (e ∷ es) prev lm j h lt =
    ground (arith, lookup-insert_list_above es (prev + 1) (insert e lm) j h.1 (omega arith))

pub lookup-insert_list_new :
    (es : List LogEntry) (prev : ℕ) (lm : LogMemory) (i : ℕ) (x : LogEntry)
    → IndexedFrom prev es
    → get_elem? es i ≡ some x
    → (insert_valid_entry_list es lm).1.log_in_memory (prev + 1 + i) ≡ some x
unfolding insert_valid_entry_list insert_log_entry
lookup-insert_list_new [] prev lm i x h at = cc
lookup-insert_list_new (e ∷ es) prev lm zero x h at =
    ground
      (arith, lookup-insert_list_old es (prev + 1) (insert e lm) (prev + 1 + 0) h.1 (omega arith))
lookup-insert_list_new (e ∷ es) prev lm (suc i) x h at =
    ground (arith, lookup-insert_list_new es (prev + 1) (insert e lm) i x h.1 at)

pub maximum_index-insert_list :
    (es : List LogEntry) (prev : ℕ) (lm : LogMemory)
    → IndexedFrom prev es
    → prev ≤ lm.maximum_index
    → (insert_valid_entry_list es lm).1.maximum_index ≡ max lm.maximum_index (prev + length es)
unfolding insert_valid_entry_list insert_log_entry
maximum_index-insert_list [] prev lm h le = omega arith
maximum_index-insert_list (e ∷ es) prev lm h le =
    ground (arith, maximum_index-insert_list es (prev + 1) (insert e lm) h.1)

pub insert_valid_entry_list-ok :
    (es : List LogEntry) (lm : LogMemory) → (insert_valid_entry_list es lm).0 ≡ ok tt
unfolding insert_valid_entry_list insert_log_entry
insert_valid_entry_list-ok [] lm = refl
insert_valid_entry_list-ok (e ∷ es) lm = insert_valid_entry_list-ok es (insert e lm)

lookup-insert_list_at :
    (es : List LogEntry) (prev : ℕ) (lm : LogMemory) (i j : ℕ) (x : LogEntry)
    → IndexedFrom prev es
    → j ≡ prev + 1 + i
    → get_elem? es i ≡ some x
    → (insert_valid_entry_list es lm).1.log_in_memory j ≡ some x
lookup-insert_list_at es prev lm i j x h e at = rw e (lookup-insert_list_new es prev lm i x h at)

get_elem?-total {ℓ} :
    {A : Type ℓ} (xs : List A) (i : ℕ) → i < length xs → (x : A) × (get_elem? xs i ≡ some x)
get_elem?-total [] i h = absurd (omega arith)
get_elem?-total (x ∷ xs) zero h = (x, refl)
get_elem?-total (x ∷ xs) (suc i) h = get_elem?-total xs i (omega arith)

-- Entries with consecutive indexes, the first of which is at most one above the last index of a
-- log without gaps, leave a log without gaps, in which every entry stands under its own index.
pub insert_valid_entry_list-IsContiguous :
    (es : List LogEntry) (prev : ℕ) (lm : LogMemory)
    → IndexedFrom prev es
    → prev ≤ lm.maximum_index
    → IsContiguous lm
    → IsContiguous (insert_valid_entry_list es lm).1
insert_valid_entry_list-IsContiguous es prev lm h le v = record {
  valid = insert_valid_entry_list-IsValid es lm v.valid;
  present = λ i pos top. split i pos top (dec_le i prev) (dec_lt (prev + length es) i);
}
  where
    split :
        (i : ℕ)
        → 0 < i
        → i ≤ (insert_valid_entry_list es lm).1.maximum_index
        → Dec (i ≤ prev)
        → Dec (prev + length es < i)
        → (e : LogEntry) × ((insert_valid_entry_list es lm).1.log_in_memory i ≡ some e)
    split i pos top (yes low) _ =
        let (e, at) = v.present i pos (omega arith) in
        (e, lookup-insert_list_old es prev lm i h low ∙ at)
    split i pos top (no _) (yes high) =
        let (e, at) = v.present i pos (omega (arith, maximum_index-insert_list es prev lm h le)) in
        (e, lookup-insert_list_above es prev lm i h high ∙ at)
    split i pos top (no high) (no low) =
        let (e, at) = get_elem?-total es (i - prev - 1) (omega arith) in
        (e, lookup-insert_list_at es prev lm (i - prev - 1) i e h (omega arith) at)

pub maximum_index-insert_list_grows :
    (es : List LogEntry) (lm : LogMemory)
    → lm.maximum_index ≤ (insert_valid_entry_list es lm).1.maximum_index
unfolding insert_valid_entry_list insert_log_entry insert
maximum_index-insert_list_grows [] lm = omega arith
maximum_index-insert_list_grows (e ∷ es) lm =
    ground (arith, maximum_index-insert_list_grows es (insert e lm))
