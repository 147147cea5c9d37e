-- ===== src/Node/ClientServer.antt =====
-- node/clisrv_server.go: what the node answers to clients. A response beside an error is left out,
-- as gRPC drops it. The client addresses of the peers are an argument (`cli`), as is the number that
-- a random choice takes; `none` is a call that waits for the mutex and that nobody wakes.
pub mod DLocks
pub mod Answers
pub mod Puts
pub mod Reads
use raft_based_distributed_l.Exec.{query_state_internal, kv_fetch}
use raft_based_distributed_l.Node.Context.{trigger_ae_channel}
use raft_based_distributed_l.Node.Replication.{is_leader}
use raft_based_distributed_l.Storage.LogMemory.{insert_log_entry, fetch_log_entry}
use raft_based_distributed_l.Util.{index_in_uint32_list, random_object_in_string_list}
use raft_based_distributed_l.Node.P2pServer.{is_dead}
use raft_based_distributed_l.Storage.Command.{command_kv_store, new_command_kv_store}
use raft_based_distributed_l.Storage.LogEntry.{new_log_entry, LogEntry}
use raft_based_distributed_l.Storage.Codec.{Codec, DlockState}
use raft_based_distributed_l.Node.State.{with_context, Node}
use raft_based_distributed_l.Prelude.{
  get_elem?, add64, ◌==◌, ltb, ℕ, Text, Bytes, if◌then◌else◌, List, Option, Bool, none, some, [],
  ◌∷◌, true, false, zero, suc,
}
use raft_based_distributed_l.Exec.{
  cli_dead, get_empty_key_value, delete_empty_key_value, change_state_internal, go_panic,
  change_state_timeout, Result, Error, Exec, ok, err, ◌>>=◌, ◌>>◌,
}
use raft_based_distributed_l.Storage.StateMap.DLock
use raft_based_distributed_l.Storage.StateMap.KvStore
use raft_based_distributed_l.Node.Interchange.{
  Leading, error_reserve, no_dlock_exist, already_released, trigger_release_success,
  trigger_release_later,
}

-- The node and whether its mutex is locked.
pub record Server : Type 0 where
  pub node : Node
  pub locked : Bool

abbrev pub Service : Type 0 → Type 0
Service A = Server → Option (Result A × Server)

-- Lock, a step, and Unlock.
unfoldable pub locking : {A : Type 0} → Exec Node A → Service A
locking m s =
    let (r, n) = m s.node in
    if s.locked then none else some (r, record { node = n; locked = false })

pub record ChangeResponse : Type 0 where
  pub committed : Bool
  pub current_leader : Text

-- The address that another node redirects to.
unfoldable pub leader_address : List Text → ℕ → Node → Result Text
leader_address cli choice n =
    if n.context.hop_to_current_leader_id == 0
    then ok (random_object_in_string_list choice cli)
    else elim (index_in_uint32_list n.config.peer_id n.context.hop_to_current_leader_id) [
      | none ↦ err go_panic
      | some i ↦ elim (get_elem? cli i) [ none ↦ err go_panic | some address ↦ ok address ]
    ]

-- A method of the node's interchange; a nil one panics.
unfoldable pub on_interchange : {A : Type 0} → Exec Leading A → Exec Node A
on_interchange m n = elim n.dlock_interchange [
  | none ↦ (err go_panic, n)
  | some di ↦
      let (r, s) = m (record { interchange = di; node = n }) in
      (r, record s.node { dlock_interchange = some s.interchange })
]

-- A put answers at once, or waits for its entry.
pub data Put : Type 0 where
  answers : ChangeResponse → Put
  waits : LogEntry → Put

abbrev pub is_kv_fetch : Result Bytes → Bool
is_kv_fetch (err kv_fetch) = true
is_kv_fetch _ = false

module _ (codec : Codec) where
  -- NewCommandKVStore and NewLogEntry
  unfoldable pub put_entry : Text → Option Bytes → Node → Result LogEntry
  put_entry key content n = elim (new_command_kv_store codec key content) [
    | err e ↦ err e
    | ok command ↦
        new_log_entry codec n.context.current_term (add64 n.log_entry_in_memory.maximum_index 1)
          (command_kv_store command)
  ]

  unfoldable pub append_put : Text → Option Bytes → Exec Node Put
  append_put key content n = elim (put_entry key content n) [
    | err _ ↦ (err change_state_internal, n)
    | ok e ↦ (
      ok (waits e),
      with_context trigger_ae_channel
          (record n { log_entry_in_memory = (insert_log_entry (some e) n.log_entry_in_memory).1 }),
    )
  ]

  -- A nil content deletes the key.
  unfoldable pub put_as_leader : Text → Option Bytes → Exec Node Put
  put_as_leader key (some content) n = append_put key (some content) n
  put_as_leader key none n =
      let put = append_put key none n in
      if is_kv_fetch (KvStore.query_specific_state n.state_map_kv_store key)
      then (err delete_empty_key_value, n)
      else put

  unfoldable pub put_state_kv : List Text → ℕ → Text → Option Bytes → Exec Node Put
  put_state_kv cli choice key content n =
      let put = put_as_leader key content n in
      if is_dead n.context.node_state
      then (err cli_dead, n)
      else if is_leader n.context.node_state
      then put
      else elim (leader_address cli choice n) [
        | err e ↦ (err e, n)
        | ok address ↦ (ok (answers (record { committed = false; current_leader = address })), n)
      ]

  -- A tick of the loop of a put, and its answer if it has one.
  unfoldable pub put_tick : LogEntry → Node → Option (Result ChangeResponse)
  put_tick e n =
      if ltb n.context.commit_index e.entry.index
      then none
      else elim (fetch_log_entry n.log_entry_in_memory e.entry.index) [
        | err _ ↦ some (err change_state_internal)
        | ok fetched ↦
            if fetched.entry.term == e.entry.term
            then some (ok (record { committed = true; current_leader = [] }))
            else none
      ]

  -- The nodes at the ticks before the timer ends.
  unfoldable pub put_wait : LogEntry → List Node → Result ChangeResponse
  put_wait e [] = err change_state_timeout
  put_wait e (n ∷ ns) = elim (put_tick e n) [ none ↦ put_wait e ns | some r ↦ r ]

  unfoldable pub put_state_kv_service : List Text → ℕ → Text → Option Bytes → Service Put
  put_state_kv_service cli choice key content = locking (put_state_kv cli choice key content)

  unfoldable pub del_state_kv_service : List Text → ℕ → Text → Service Put
  del_state_kv_service cli choice key = put_state_kv_service cli choice key none

  unfoldable pub get_state_kv : Text → Exec Node Bytes
  get_state_kv key n = elim (KvStore.query_specific_state n.state_map_kv_store key) [
    | ok value ↦ (ok value, n)
    | err e ↦ (err (if is_kv_fetch (err e) then get_empty_key_value else query_state_internal), n)
  ]

  unfoldable pub get_state_kv_service : Text → Service Bytes
  get_state_kv_service key = locking (get_state_kv key)
