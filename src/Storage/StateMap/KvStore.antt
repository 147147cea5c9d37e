-- ===== src/Storage/StateMap/KvStore.antt =====
-- The state map of the key-value store: storage/statemap_memory_impl.go, StateMapMemoryKVStore.
pub mod Stuck
pub mod Values
pub mod Refinement
pub mod Replicas
use raft_based_distributed_l.Prelude.{
  ℕ, Option, none, some, Bool, true, false, Text, Bytes, text, has_prefix, if◌then◌else◌,
}
use raft_based_distributed_l.Exec.{
  Error, Result, ok, err, Exec, lift, ◌>>=◌, map_keyword, map_index_term, map_content, kv_fetch,
  delete_no_key,
}
use raft_based_distributed_l.Dict
use raft_based_distributed_l.Storage.Codec.{Codec}
use raft_based_distributed_l.Storage.Command.{
  Command, CommandOperator, command_kv_store, command_dlock, get_as_kv_store, new_command_from_raw,
}
use raft_based_distributed_l.Storage.LogEntry.{LogEntry}
use raft_based_distributed_l.Storage.LogMemory.{LogMemory}
use raft_based_distributed_l.Storage.StateMap
use raft_based_distributed_l.Storage.StateMap.{StateMap, new_state_map, follows, advance}

unfoldable pub new_state_map_kv_store : Text → Result StateMap
unfolding new_state_map
new_state_map_kv_store = new_state_map (text "KVStore")

-- command.(*CommandKVStore)
unfoldable pub as_command_kv_store : Option CommandOperator → Result Command
as_command_kv_store none = err map_content
as_command_kv_store (some (command_kv_store c)) = ok c
as_command_kv_store (some (command_dlock c)) = err map_content

-- The errors that the loop passes over.
abbrev pub is_tolerated : Error → Bool
is_tolerated map_keyword = true
is_tolerated delete_no_key = true
is_tolerated _ = false

unfoldable pub query_specific_state : StateMap → Text → Result Bytes
query_specific_state sm key = elim (Dict.lookup key sm.state_map) [
  | none ↦ err kv_fetch
  | some value ↦ ok value
]

-- A nil value deletes the key, which must be there.
unfoldable pub put_or_delete : LogEntry → Text → Option Bytes → Exec StateMap (Unit {0})
put_or_delete e key none sm = elim (Dict.lookup key sm.state_map) [
  | none ↦ (err delete_no_key, sm)
  | some _ ↦ (ok tt, advance e (record sm { state_map = Dict.delete key sm.state_map }))
]
put_or_delete e key (some value) sm =
    (ok tt, advance e (record sm { state_map = Dict.insert key value sm.state_map }))

module _ (codec : Codec) where
  -- The part of the update after the index and the keyword are found right.
  unfoldable pub apply_command : LogEntry → Exec StateMap (Unit {0})
  unfolding as_command_kv_store put_or_delete
  apply_command e = do
    command ←
        lift
          (as_command_kv_store (new_command_from_raw e.entry.command_name e.entry.command_content))
    kv_store ← lift (get_as_kv_store codec command)
    put_or_delete e kv_store.key kv_store.value

  -- A nil entry is passed over.
  unfoldable pub update_state_from_log_entry : Option LogEntry → Exec StateMap (Unit {0})
  update_state_from_log_entry none sm = (ok tt, sm)
  update_state_from_log_entry (some e) sm =
      if follows sm e
      then if has_prefix e.fast_index sm.keyword
        then apply_command e sm
        else (err map_keyword, advance e sm)
      else (err map_index_term, sm)

  unfoldable pub update_state_from_log_memory : LogMemory → ℕ → ℕ → Exec StateMap (Unit {0})
  update_state_from_log_memory =
      StateMap.update_state_from_log_memory update_state_from_log_entry is_tolerated
