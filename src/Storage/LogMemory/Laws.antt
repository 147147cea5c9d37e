-- ===== src/Storage/LogMemory/Laws.antt =====
-- The log's invariant, and what an insertion changes.
use raft_based_distributed_l.Prelude.{
  ℕ, ◌≤◌, ◌≡◌, inl, inr, some, List, [], ◌∷◌, arith, Option-cases, ◌==◌, if◌then◌else◌,
}
use raft_based_distributed_l.Exec.{ok}
use raft_based_distributed_l.Storage.LogEntry.{LogEntry}
use raft_based_distributed_l.Storage.LogMemory.{
  LogMemory, new_log_memory, insert, insert_log_entry, fetch_log_entry, insert_valid_entry_list,
}

-- Each entry stands under its own index, and no index is above the maximum.
pub record IsValid (lm : LogMemory) : Type 0 where
  pub indexed : (i : ℕ) (e : LogEntry) → lm.log_in_memory i ≡ some e → e.entry.index ≡ i
  pub bounded : (i : ℕ) (e : LogEntry) → lm.log_in_memory i ≡ some e → i ≤ lm.maximum_index

pub new_log_memory-IsValid : IsValid new_log_memory
unfolding new_log_memory
new_log_memory-IsValid = record { indexed = λ i e h. cc; bounded = λ i e h. cc }

pub insert-IsValid : (e : LogEntry) (lm : LogMemory) → IsValid lm → IsValid (insert e lm)
unfolding insert
insert-IsValid e lm v = record {
  indexed = λ i x h. ground (arith, v.indexed i x);
  bounded = λ i x h. ground (arith, v.bounded i x);
}

pub insert_valid_entry_list-IsValid :
    (es : List LogEntry) (lm : LogMemory) → IsValid lm → IsValid (insert_valid_entry_list es lm).1
unfolding insert_valid_entry_list insert_log_entry
insert_valid_entry_list-IsValid [] lm v = v
insert_valid_entry_list-IsValid (e ∷ es) lm v =
    insert_valid_entry_list-IsValid es (insert e lm) (insert-IsValid e lm v)

-- If every entry of a log stands under its own index and none above the last index, then after an
-- insertion a fetch gives the inserted entry at its index and the old answer at every other
-- index.
pub fetch_log_entry-insert :
    (e : LogEntry) (lm : LogMemory) (i : ℕ)
    → IsValid lm
    → fetch_log_entry (insert_log_entry (some e) lm).1 i
      ≡ (if e.entry.index == i then ok e else fetch_log_entry lm i)
unfolding insert_log_entry fetch_log_entry
fetch_log_entry-insert e lm i v = elim (Option-cases (lm.log_in_memory i)) [
  | inl absent ↦ ground arith
  | inr (x, found) ↦ ground (arith, v.bounded i x found)
]
