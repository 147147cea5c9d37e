-- ===== src/Storage/StateMap/KvStore/Stuck.antt =====
-- The deletion of an absent key, which the loop passes over although the map does not move on.
use raft_based_distributed_l.Storage.Command.{new_command_from_raw, Command, get_as_kv_store}
use raft_based_distributed_l.Storage.LogEntry.{LogEntry}
use raft_based_distributed_l.Storage.LogMemory.{LogMemory, fetch_log_entry}
use raft_based_distributed_l.Exec.{Result, delete_no_key, map_index_term, err, Result-cases}
use raft_based_distributed_l.Prelude.{
  refl, ◌∙◌, suc, ◌-◌, some, false, inl, arith, inr, none, has_prefix, ◌^◌, ◌≤◌, true, ◌+◌, ◌≡◌, ℕ,
  ◌<◌,
}
use raft_based_distributed_l.Storage.Codec.{Codec, KeyValue}
use raft_based_distributed_l.Storage.StateMap.{update_loop, ok, StateMap, follows, advance}
use raft_based_distributed_l.Storage.StateMap
use raft_based_distributed_l.Dict
use raft_based_distributed_l.Storage.StateMap.Batches.{update_loop_passed, update_loop_refused}
use raft_based_distributed_l.Storage.StateMap.KvStore.{
  is_tolerated, apply_command, update_state_from_log_entry, update_state_from_log_memory,
  as_command_kv_store, put_or_delete,
}

module _ (codec : Codec) where
  abbrev pub content_in : Result Command → Result KeyValue
  content_in (ok command) = get_as_kv_store codec command
  content_in (err x) = err x

  -- The key and the value that an entry carries.
  abbrev pub carried : LogEntry → Result KeyValue
  carried e =
      content_in
        (as_command_kv_store (new_command_from_raw e.entry.command_name e.entry.command_content))

  pub apply_command-carried :
      (e : LogEntry) (sm : StateMap) (kv : KeyValue)
      → carried e ≡ ok kv
      → apply_command codec e sm ≡ put_or_delete e kv.key kv.value sm
  unfolding apply_command
  apply_command-carried e sm kv c =
      elim (Result-cases
        (as_command_kv_store (new_command_from_raw e.entry.command_name e.entry.command_content))) [
          | inr (y, none_there) ↦ absurd (ground arith)
          | inl (command, got) ↦
              let read : get_as_kv_store codec command ≡ ok kv = ground arith in
              rw (got, read, apply_command)
        ]

  -- The deletion of an absent key fails and leaves the map as it was, its index too.
  delete_absent :
      (e : LogEntry) (sm : StateMap) (kv : KeyValue)
      → follows sm e ≡ true
      → has_prefix e.fast_index sm.keyword ≡ true
      → carried e ≡ ok kv
      → kv.value ≡ none
      → Dict.lookup kv.key sm.state_map ≡ none
      → update_state_from_log_entry codec (some e) sm ≡ (err delete_no_key, sm)
  unfolding update_state_from_log_entry put_or_delete
  delete_absent e sm kv next mine c nil absent =
      rw (next, mine) (apply_command-carried e sm kv c ∙ rw (nil, put_or_delete, absent))

  out_of_order :
      (e : LogEntry) (sm : StateMap)
      → follows sm e ≡ false
      → update_state_from_log_entry codec (some e) sm ≡ (err map_index_term, sm)
  unfolding update_state_from_log_entry
  out_of_order e sm late = rw late

  -- If the first entry of a range behind the last index of the key-value map deletes an absent
  -- key, and the range, which ends inside the log and below 2^64 - 1, has another entry at the
  -- next index, then the update over the range ends with an index error and the map is as before.
  pub delete_absent_blocks :
      (lm : LogMemory) (sm : StateMap) (last : ℕ) (e f : LogEntry) (kv : KeyValue)
      → sm.prev_index + 1 < last
      → last ≤ lm.maximum_index
      → last + 1 < 2 ^ 64
      → fetch_log_entry lm (sm.prev_index + 1) ≡ ok e
      → fetch_log_entry lm (sm.prev_index + 2) ≡ ok f
      → f.entry.index ≡ sm.prev_index + 2
      → follows sm e ≡ true
      → has_prefix e.fast_index sm.keyword ≡ true
      → carried e ≡ ok kv
      → kv.value ≡ none
      → Dict.lookup kv.key sm.state_map ≡ none
      → update_state_from_log_memory codec lm (sm.prev_index + 1) last sm ≡ (err map_index_term, sm)
  unfolding update_state_from_log_memory StateMap.update_state_from_log_memory
  delete_absent_blocks lm sm last e f kv lt top small at next_at index next mine c nil absent =
      let k = last - sm.prev_index - 2 in
      let first = delete_absent e sm kv next mine c nil absent in
      let second = out_of_order f sm (ground arith) in
      let rounds : last + 1 - (sm.prev_index + 1) ≡ suc (suc k) = omega arith in
      let place : sm.prev_index + 1 + 1 ≡ sm.prev_index + 2 = omega arith in
      let update = update_state_from_log_entry codec in
      let skipped : update_loop update is_tolerated (suc (suc k)) lm (sm.prev_index + 1) sm
          ≡ update_loop update is_tolerated (suc k) lm (sm.prev_index + 2) sm =
        update_loop_passed update is_tolerated (suc k) lm (sm.prev_index + 1) sm e (omega arith) at
          (rw first)
        ∙ rw (first, place) refl in
      let stopped : update_loop update is_tolerated (suc k) lm (sm.prev_index + 2) sm
          ≡ (err map_index_term, sm) =
        update_loop_refused update is_tolerated k lm (sm.prev_index + 2) sm f next_at (rw second)
        ∙ second in
      rw rounds (ground (arith, skipped ∙ stopped))
