-- ===== src/Node/Interchange.antt =====
-- node/dlock_interchange.go: what the leader does with requests for locks before it appends entries.
-- A method's state is the interchange beside the node that it refers to; `now` is the timestamp of
-- the request.
pub mod Append
pub mod Guards
pub mod Grants
pub mod Release
pub mod Acquire
pub mod Expiry
use raft_based_distributed_l.Prelude.{
  none, some, false, ltb, true, ◌||◌, text_eq, ltb_i64, if◌then◌else◌, Option, [], Text, add64,
  add32, some, zero, suc, ℕ,
}
use raft_based_distributed_l.Exec.{
  Result, ok, err, Exec, get, put, pure, raise, lift, ◌>>=◌, ◌>>◌, dlock_fetch, empty_acquirement,
  acquire_unexpected, go_panic,
}
use raft_based_distributed_l.Dict
use raft_based_distributed_l.Storage.Codec.{Codec, LockInfo, DlockState}
use raft_based_distributed_l.Storage.Command.{
  Command, command_dlock, get_as_dlock_info, set_as_dlock_info, new_command_dlock,
}
use raft_based_distributed_l.Storage.LogEntry.{LogEntry, new_log_entry}
use raft_based_distributed_l.Storage.LogMemory.{insert_log_entry, insert_valid_entry_list}
use raft_based_distributed_l.Storage.StateMap.DLock.{is_dlock_fetch}
use raft_based_distributed_l.Storage.StateMap.DLock
use raft_based_distributed_l.Node.Context.{trigger_ae_channel}
use raft_based_distributed_l.Node.Acquirement.{
  DlockVolatileAcquirement, new_dlock_volatile_acquirement, insert_new_acquirement,
  refresh_acquirement, abandon_expired_acquirement, fetch_first_valid_acquirement,
}
use raft_based_distributed_l.Node.State.{Node, DlockInterchange, with_context, commit_procedure}

pub record Leading : Type 0 where
  pub interchange : DlockInterchange
  pub node : Node

pub data ReleaseInfo : Type 0 where
  error_reserve no_dlock_exist trigger_release_later already_released trigger_release_success :
      ReleaseInfo

unfoldable pub new_dlock_interchange : Node → DlockInterchange
new_dlock_interchange n = record { leader_term = n.context.current_term; pending_acquire = [] }

abbrev pub pending_of : Leading → Text → Option DlockVolatileAcquirement
pending_of s name = Dict.lookup name s.interchange.pending_acquire

abbrev pub set_pending : Text → DlockVolatileAcquirement → Leading → Leading
set_pending name acq s = record s {
  interchange = record s.interchange {
    pending_acquire = Dict.insert name acq s.interchange.pending_acquire;
  };
}

-- A call of a method of the acquirement of a lock, which the map holds by reference.
unfoldable pub on_pending : {A : Type 0} → Text → Exec DlockVolatileAcquirement A → Exec Leading A
on_pending name m s = elim (pending_of s name) [
  | none ↦ (err go_panic, s)
  | some acq ↦ let (r, acq') = m acq in (r, set_pending name acq' s)
]

-- PendingAcquire[name].LastAppendedNonce += 1
abbrev pub add_nonce : Exec DlockVolatileAcquirement (Unit {0})
add_nonce acq = (ok tt, record acq { last_appended_nonce = add32 acq.last_appended_nonce 1 })

abbrev pub get_nonce : Exec DlockVolatileAcquirement ℕ
get_nonce acq = (ok acq.last_appended_nonce, acq)

abbrev pub trigger_ae : Exec Leading (Unit {0})
trigger_ae s = (ok tt, record s { node = with_context trigger_ae_channel s.node })

-- Timestamp + Expire, as an int64
abbrev pub deadline : DlockState → ℕ
deadline st = add64 st.timestamp st.expire

module _ (codec : Codec) where
  abbrev pub commit : Exec Leading (Unit {0})
  commit s = (ok tt, record s { node = commit_procedure codec s.node })

  unfoldable pub insert_entry : LogEntry → Exec Leading (Unit {0})
  insert_entry e s =
      let (r, lm) = insert_log_entry (some e) s.node.log_entry_in_memory in
      (r, record s { node = record s.node { log_entry_in_memory = lm } })

  -- NewLogEntry with the current term and the next index, then InsertLogEntry.
  unfoldable pub append_command : Command → Exec Leading (Unit {0})
  unfolding insert_entry
  append_command command = do
    s ← get
    e ← lift (
        new_log_entry codec s.node.context.current_term
          (add64 s.node.log_entry_in_memory.maximum_index 1) (command_dlock command))
    insert_entry e

  unfoldable pub construct_log_entry_by_items : ℕ → Text → Text → ℕ → ℕ → ℕ → ℕ → Result LogEntry
  construct_log_entry_by_items lock_nonce lock_name new_owner timestamp expire current_term
        entry_index =
      elim (new_command_dlock codec lock_nonce lock_name new_owner timestamp expire) [
        | err e ↦ err e
        | ok command ↦ new_log_entry codec current_term entry_index (command_dlock command)
      ]

  -- The end of a refresh, with the command that was popped.
  unfoldable pub append_popped : Text → Option Command → Exec Leading ℕ
  unfolding on_pending append_command
  append_popped name none = raise go_panic
  append_popped name (some command) = do
    append_command command
    on_pending name add_nonce
    trigger_ae
    on_pending name get_nonce

  -- The middle of a refresh: only the client of the first acquirement goes on.
  unfoldable pub pop_for_client : Text → Text → ℕ → Option Command → Exec Leading ℕ
  unfolding append_popped
  pop_for_client name client_id now none = pure 0
  pop_for_client name client_id now (some command) = elim (get_as_dlock_info codec command) [
    | err _ ↦ pure 0
    | ok info ↦
        if text_eq info.new_owner client_id
        then (do
          popped ← on_pending name (fetch_first_valid_acquirement codec true now)
          append_popped name popped)
        else pure 0
  ]

  -- The part of a refresh behind the lookups of the acquirement and of the lock's state.
  unfoldable pub refresh_found :
      Text → Text → ℕ → DlockVolatileAcquirement → DlockState → Exec Leading ℕ
  unfolding pop_for_client
  refresh_found name client_id now acq st =
      if ltb_i64 now (deadline st) || ltb st.lock_nonce acq.last_appended_nonce then pure 0 else do
        command ← on_pending name (fetch_first_valid_acquirement codec false now)
        pop_for_client name client_id now command

  unfoldable pub refresh_specific_dlock : Text → Text → ℕ → Exec Leading ℕ
  unfolding refresh_found
  refresh_specific_dlock name client_id now s = elim (pending_of s name) [
    | none ↦ (err empty_acquirement, s)
    | some acq ↦ elim (DLock.query_specific_state codec s.node.state_map_dlock name) [
      | err e ↦ (err e, s)
      | ok st ↦ refresh_found name client_id now acq st s
    ]
  ]
