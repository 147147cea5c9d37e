-- ===== src/Storage/LogMemory.antt =====
-- storage/log_memory.go: the log in memory.
pub mod Laws
pub mod Contents
pub mod Files
pub mod TermSearch
use raft_based_distributed_l.Prelude.{
  ℕ, zero, suc, Option, none, some, List, [], ◌∷◌, ltb, ◌==◌, if◌then◌else◌,
}
use raft_based_distributed_l.Exec.{
  Result, ok, err, Exec, log_insert, no_specific_term, log_entry_not_exist, continue, ◌>>=◌, ◌>>◌,
  pure,
}
use raft_based_distributed_l.Storage.LogEntry.{LogEntry}

-- The hash map is a function from indexes.
pub record LogMemory : Type 0 where
  pub log_in_memory : ℕ → Option LogEntry
  pub maximum_index : ℕ

unfoldable pub new_log_memory : LogMemory
new_log_memory = record { log_in_memory = λ _. none; maximum_index = 0 }

abbrev pub update {ℓ} : {A : Type ℓ} → (ℕ → Option A) → ℕ → Option A → ℕ → Option A
update f i v j = if i == j then v else f j

unfoldable pub insert : LogEntry → LogMemory → LogMemory
insert e lm = record {
  log_in_memory = update lm.log_in_memory e.entry.index (some e);
  maximum_index = if ltb lm.maximum_index e.entry.index then e.entry.index else lm.maximum_index;
}

-- A nil pointer, or one to an entry with a nil `Entry`, is `none`.
unfoldable pub insert_log_entry : Option LogEntry → Exec LogMemory (Unit {0})
unfolding insert
insert_log_entry none lm = (err log_insert, lm)
insert_log_entry (some e) lm = (ok tt, insert e lm)

unfoldable pub fetch_log_entry : LogMemory → ℕ → Result LogEntry
fetch_log_entry lm index =
    if ltb lm.maximum_index index
    then err log_entry_not_exist
    else elim (lm.log_in_memory index) [ none ↦ err log_entry_not_exist | some e ↦ ok e ]

unfoldable pub insert_valid_entry_list : List LogEntry → Exec LogMemory (Unit {0})
insert_valid_entry_list [] lm = (ok tt, lm)
insert_valid_entry_list (e ∷ es) lm = (insert_log_entry (some e) >> insert_valid_entry_list es) lm

-- The loop of `fetch_last_index_of_term`, which counts down from `i` and stops at 0.
unfoldable pub search_term : LogMemory → ℕ → ℕ → Result ℕ
search_term lm term zero = err no_specific_term
search_term lm term (suc i) = elim (fetch_log_entry lm (suc i)) [
  | err e ↦ err e
  | ok e ↦ let rest = search_term lm term i in if e.entry.term == term then ok (suc i) else rest
]

unfoldable pub fetch_last_index_of_term : LogMemory → ℕ → Result ℕ
unfolding search_term
fetch_last_index_of_term lm term = if term == 0 then ok 0 else search_term lm term lm.maximum_index
