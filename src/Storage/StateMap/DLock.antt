-- ===== src/Storage/StateMap/DLock.antt =====
-- The state map of the locks: storage/statemap_memory_impl.go, StateMapMemoryDLock.
pub mod Steps
pub mod Locks
pub mod Commits
use raft_based_distributed_l.Prelude.{
  ℕ, Option, none, some, Bool, true, false, Text, text, ◌==◌, add32, has_prefix, if◌then◌else◌,
}
use raft_based_distributed_l.Exec.{
  Error, Result, ok, err, Status, Exec, lift, get, put, ◌>>=◌, ◌>>◌, map_keyword, map_index_term,
  map_content, dlock_fetch, nonce_mismatch,
}
use raft_based_distributed_l.Dict
use raft_based_distributed_l.Storage.Codec.{LockInfo, DlockState, Codec}
use raft_based_distributed_l.Storage.Command.{
  Command, CommandOperator, command_kv_store, command_dlock, or_codec_failure, get_as_dlock_info,
  new_command_from_raw,
}
use raft_based_distributed_l.Storage.LogEntry.{LogEntry}
use raft_based_distributed_l.Storage.LogMemory.{LogMemory}
use raft_based_distributed_l.Storage.StateMap
use raft_based_distributed_l.Storage.StateMap.{StateMap, new_state_map, follows, advance}

unfoldable pub new_state_map_dlock : Text → Result StateMap
unfolding new_state_map
new_state_map_dlock = new_state_map (text "DLock")

unfoldable pub new_dlock_state : Text → ℕ → Text → ℕ → ℕ → DlockState
new_dlock_state owner lock_nonce lock_name timestamp expire = record {
  owner = owner;
  lock_nonce = lock_nonce;
  lock_name = lock_name;
  timestamp = timestamp;
  expire = expire;
}

-- command.(*CommandDLock)
unfoldable pub as_command_dlock : Option CommandOperator → Result Command
as_command_dlock none = err map_content
as_command_dlock (some (command_kv_store c)) = err map_content
as_command_dlock (some (command_dlock c)) = ok c

abbrev pub is_dlock_fetch : Error → Bool
is_dlock_fetch dlock_fetch = true
is_dlock_fetch _ = false

abbrev pub is_map_keyword : Error → Bool
is_map_keyword map_keyword = true
is_map_keyword _ = false

-- An existing lock takes only the next nonce, and a new one any.
unfoldable pub check_nonce : Result DlockState → LockInfo → Status
check_nonce (err e) info = if is_dlock_fetch e then ok tt else err e
check_nonce (ok previous) info =
    if info.lock_nonce == add32 previous.lock_nonce 1 then ok tt else err nonce_mismatch

module _ (codec : Codec) where
  unfoldable pub query_specific_state : StateMap → Text → Result DlockState
  query_specific_state sm key = elim (Dict.lookup key sm.state_map) [
    | none ↦ err dlock_fetch
    | some b ↦ or_codec_failure (codec.unmarshal_dlock_state b)
  ]

  -- The part of the update after the index and the keyword are found right.
  unfoldable pub apply_command : LogEntry → Exec StateMap (Unit {0})
  unfolding new_dlock_state as_command_dlock check_nonce
  apply_command e = do
    command ←
        lift (as_command_dlock (new_command_from_raw e.entry.command_name e.entry.command_content))
    info ← lift (get_as_dlock_info codec command)
    sm ← get
    lift (check_nonce (query_specific_state sm info.lock_name) info)
    let state =
        new_dlock_state info.new_owner info.lock_nonce info.lock_name info.timestamp info.expire
    encoded ← lift (or_codec_failure (codec.marshal_dlock_state state))
    put (advance e (record sm { state_map = Dict.insert info.lock_name encoded sm.state_map }))

  -- A nil entry is passed over.
  unfoldable pub update_state_from_log_entry : Option LogEntry → Exec StateMap (Unit {0})
  update_state_from_log_entry none sm = (ok tt, sm)
  update_state_from_log_entry (some e) sm =
      if follows sm e
      then if has_prefix e.fast_index sm.keyword
        then apply_command e sm
        else (err map_keyword, advance e sm)
      else (err map_index_term, sm)

  unfoldable pub update_state_from_log_memory : LogMemory → ℕ → ℕ → Exec StateMap (Unit {0})
  update_state_from_log_memory =
      StateMap.update_state_from_log_memory update_state_from_log_entry is_map_keyword
