-- ===== src/Storage/StateMap/KvStore/Replicas.antt =====
-- The key-value maps of two nodes.
use raft_based_distributed_l.Storage.LogEntry.{LogEntry}
use raft_based_distributed_l.Storage.StateMap.{new_state_map, StateMap}
use raft_based_distributed_l.Storage.Codec.{Codec}
use raft_based_distributed_l.Storage.StateMap.KvStore.Refinement.{
  update_state_from_log_memory-IsReplayed, cons_found, view, replay_entry, replay, View,
  entries_from,
}
use raft_based_distributed_l.Dict
use native.Mathlib.Nat.{zero-add, add-zero, suc-add}
use raft_based_distributed_l.Storage.StateMap.KvStore.{
  query_specific_state, new_state_map_kv_store, update_state_from_log_memory,
}
use raft_based_distributed_l.Storage.LogMemory.{fetch_log_entry, LogMemory}
use raft_based_distributed_l.Prelude.{
  ◌-◌, subst, Bytes, sym, has_prefix, ap, ◌^◌, ◌∙◌, ◌<◌, ◌++◌, arith, text, List, ◌≡◌, Text, ◌≤◌,
  ◌+◌, ℕ, [], ◌∷◌, zero, suc, none, some, refl,
}
use raft_based_distributed_l.Exec.{kv_fetch, ok_injective, Result, ok, err}

-- Two logs have the same entries up to an index.
abbrev pub AgreeUpTo : ℕ → LogMemory → LogMemory → Type 0
AgreeUpTo k lm lm' = (i : ℕ) → i ≤ k → fetch_log_entry lm i ≡ fetch_log_entry lm' i

-- A map that starts empty and is updated range by range over a log, which grows in between. It is
-- applied up to an index of the log.
pub data Applied (codec : Codec) : LogMemory → ℕ → StateMap → Type 0 where
  new_map :
      (lm : LogMemory) (sm : StateMap)
      → new_state_map_kv_store (text "KVStore") ≡ ok sm
      → Applied codec lm 0 sm
  updated :
      (lm lm' : LogMemory) (k last : ℕ) (sm sm' : StateMap)
      → Applied codec lm k sm
      → AgreeUpTo k lm lm'
      → last + 1 < 2 ^ 64
      → update_state_from_log_memory codec lm' (k + 1) last sm ≡ (ok tt, sm')
      → Applied codec lm' last sm'

replay-append :
    (codec : Codec) (keyword : Text) (xs ys : List LogEntry) (v : View)
    → replay codec keyword (xs ++ ys) v ≡ replay codec keyword ys (replay codec keyword xs v)
replay-append codec keyword [] ys v = refl
replay-append codec keyword (x ∷ xs) ys v =
    replay-append codec keyword xs ys (replay_entry codec keyword x v)

cons_found-append :
    (r : Result LogEntry) (xs ys : List LogEntry) → cons_found r (xs ++ ys) ≡ cons_found r xs ++ ys
cons_found-append (err _) xs ys = refl
cons_found-append (ok e) xs ys = refl

entries_from-append :
    (lm : LogMemory) (m n i : ℕ)
    → entries_from lm (m + n) i ≡ entries_from lm m i ++ entries_from lm n (i + m)
unfolding entries_from
entries_from-append lm zero n i = rw (zero-add, add-zero) refl
entries_from-append lm (suc m) n i =
    let shift : i + suc m ≡ i + 1 + m = omega arith in
    let r = fetch_log_entry lm i in
    rw (suc-add, shift)
      (ap (cons_found r) (entries_from-append lm m n (i + 1))
        ∙ cons_found-append r (entries_from lm m (i + 1)) (entries_from lm n (i + 1 + m)))

entries_from-AgreeUpTo :
    (k m i : ℕ) (lm lm' : LogMemory)
    → AgreeUpTo k lm lm'
    → i + m ≤ k + 1
    → entries_from lm m i ≡ entries_from lm' m i
unfolding entries_from
entries_from-AgreeUpTo k zero i lm lm' a h = refl
entries_from-AgreeUpTo k (suc m) i lm lm' a h =
    ap (λ r. cons_found r (entries_from lm m (i + 1))) (a i (omega arith))
    ∙ ap (cons_found (fetch_log_entry lm' i))
        (entries_from-AgreeUpTo k m (i + 1) lm lm' a (omega arith))

-- What the commands of a log up to an index leave, from an empty map on.
abbrev view_at : Codec → LogMemory → ℕ → View
view_at codec lm k = replay codec (text "KVStore") (entries_from lm k 1) (λ _. none)

view_at-append :
    (codec : Codec) (lm : LogMemory) (k n : ℕ)
    → view_at codec lm (k + n)
      ≡ replay codec (text "KVStore") (entries_from lm n (k + 1)) (view_at codec lm k)
view_at-append codec lm k n =
    let next : 1 + k ≡ k + 1 = omega arith in
    ap (λ es. replay codec (text "KVStore") es (λ _. none)) (entries_from-append lm k n 1)
    ∙ replay-append codec (text "KVStore") (entries_from lm k 1) (entries_from lm n (1 + k))
        (λ _. none)
    ∙ ap (λ j. replay codec (text "KVStore") (entries_from lm n j) (view_at codec lm k)) next

record IsViewAt (codec : Codec) (lm : LogMemory) (k : ℕ) (sm : StateMap) : Type 0 where
  keyword_is : sm.keyword ≡ text "KVStore"
  view_is : view sm ≡ view_at codec lm k

Applied-IsViewAt :
    (codec : Codec) (lm : LogMemory) (k : ℕ) (sm : StateMap)
    → Applied codec lm k sm
    → IsViewAt codec lm k sm
unfolding new_state_map_kv_store new_state_map entries_from has_prefix Dict.lookup
Applied-IsViewAt codec _ _ _ (new_map lm sm h) =
    subst (IsViewAt codec lm 0) (ok_injective _ sm h) (record { keyword_is = refl; view_is = refl })
Applied-IsViewAt codec _ _ _ (updated lm lm' k last sm sm' applied agree low u) =
    let before = Applied-IsViewAt codec lm k sm applied in
    let (above, after) =
      update_state_from_log_memory-IsReplayed codec lm' (k + 1) last sm sm' low u in
    let n = last + 1 - (k + 1) in
    let sum : last ≡ k + n = omega arith in
    let same : view_at codec lm k ≡ view_at codec lm' k =
      ap (λ es. replay codec (text "KVStore") es (λ _. none))
        (entries_from-AgreeUpTo k k 1 lm lm' agree (omega arith)) in
    record {
      keyword_is = after.keywords ∙ before.keyword_is;
      view_is =
          after.views
          ∙ ap (λ w. replay codec w (entries_from lm' n (k + 1)) (view sm)) before.keyword_is
          ∙ ap (replay codec (text "KVStore") (entries_from lm' n (k + 1))) (before.view_is ∙ same)
          ∙ sym (view_at-append codec lm' k n)
          ∙ ap (view_at codec lm') (sym sum);
    }

-- State machine safety. If the key-value maps of two nodes start empty and are brought up to the
-- same index of their logs by updates that succeed, each over any ranges while its log grows and
-- keeps the entries that are applied, below 2^64 - 1, and the two logs agree up to that index,
-- then every query gives the same answer at both nodes.
pub Applied-same_view :
    (codec : Codec) (lm₁ lm₂ : LogMemory) (k : ℕ) (sm₁ sm₂ : StateMap)
    → Applied codec lm₁ k sm₁
    → Applied codec lm₂ k sm₂
    → AgreeUpTo k lm₁ lm₂
    → (key : Text) → query_specific_state sm₁ key ≡ query_specific_state sm₂ key
unfolding query_specific_state
Applied-same_view codec lm₁ lm₂ k sm₁ sm₂ a₁ a₂ agree key =
    let v₁ = Applied-IsViewAt codec lm₁ k sm₁ a₁ in
    let v₂ = Applied-IsViewAt codec lm₂ k sm₂ a₂ in
    let same : view sm₁ ≡ view sm₂ =
      v₁.view_is
      ∙ ap (λ es. replay codec (text "KVStore") es (λ _. none))
          (entries_from-AgreeUpTo k k 1 lm₁ lm₂ agree (omega arith))
      ∙ sym v₂.view_is in
    ap
      (λ (w : View). elim (w key) as (λ _. Result Bytes) [
        | none ↦ err kv_fetch
        | some value ↦ ok value
      ])
      same
