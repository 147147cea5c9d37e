-- ===== src/Storage/StateMap.antt =====
-- storage/statemap_memory.go, and the loop that both state maps of storage/statemap_memory_impl.go
-- have in common.
pub mod DLock
pub mod KvStore
pub mod Batches
use raft_based_distributed_l.Prelude.{
  Option, some, ℕ, zero, suc, ◌+◌, ◌-◌, Bool, true, not, ◌&&◌, ◌||◌, [], Text, Bytes, ltb, ◌==◌,
  add64, has_prefix, if◌then◌else◌,
}
use raft_based_distributed_l.Exec.{Error, Result, ok, err, Exec, map_create, map_index_term}
use raft_based_distributed_l.Dict.{Dict}
use raft_based_distributed_l.Storage.LogEntry.{LogEntry}
use raft_based_distributed_l.Storage.LogMemory.{LogMemory, fetch_log_entry}

pub record StateMap : Type 0 where
  pub keyword : Text
  pub state_map : Dict Bytes
  pub prev_index : ℕ
  pub prev_term : ℕ

-- The constructors of both maps, which differ in the prefix that they ask for.
unfoldable pub new_state_map : Text → Text → Result StateMap
new_state_map prefix keyword =
    if has_prefix keyword prefix
    then ok (record { keyword = keyword; state_map = []; prev_index = 0; prev_term = 0 })
    else err map_create

-- An entry follows the state if it has the next index, and a term that is not smaller.
abbrev pub follows : StateMap → LogEntry → Bool
follows sm e = add64 sm.prev_index 1 == e.entry.index && not (ltb e.entry.term sm.prev_term)

abbrev pub advance : LogEntry → StateMap → StateMap
advance e sm = record sm { prev_index = e.entry.index; prev_term = e.entry.term }

-- What the loop makes of the error of one entry: some are passed over.
abbrev pub passes : (Error → Bool) → Result (Unit {0}) → Bool
passes tolerated (ok _) = true
passes tolerated (err e) = tolerated e

module _ (update_state_from_log_entry : Option LogEntry → Exec StateMap (Unit {0}))
    (tolerated : Error → Bool) where
  -- `rounds` entries from `sequence` on, until one is refused.
  unfoldable pub update_loop : ℕ → LogMemory → ℕ → Exec StateMap (Unit {0})
  update_loop zero lm sequence sm = (ok tt, sm)
  update_loop (suc rounds) lm sequence sm = elim (fetch_log_entry lm sequence) [
    | err e ↦ (err e, sm)
    | ok e ↦
        let (r, sm') = update_state_from_log_entry (some e) sm in
        let rest = update_loop rounds lm (add64 sequence 1) sm' in
        if passes tolerated r then rest else (r, sm')
  ]

  -- The guards, then the loop over the indexes from `start` to `last`.
  unfoldable pub update_state_from_log_memory : LogMemory → ℕ → ℕ → Exec StateMap (Unit {0})
  update_state_from_log_memory lm start last sm =
      if start == 0
        || last == 0
        || not (start == add64 sm.prev_index 1)
        || ltb last start
        || ltb lm.maximum_index last
      then (err map_index_term, sm)
      else update_loop (last + 1 - start) lm start sm
