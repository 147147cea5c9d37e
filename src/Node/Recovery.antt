-- ===== src/Node/Recovery.antt =====
-- node/node.go and node/peer.go: the backup of the log to disk, and a node that is made from it. The
-- loggers, the servers and the gRPC clients are left out, as are the addresses of the peers but for
-- their number, which is an argument.
pub mod Backups
pub mod Restarts
use raft_based_distributed_l.Storage.LogMemory.Files.{store_log_memory, reload_log_memory}
use raft_based_distributed_l.Storage.StateMap.{StateMap}
use raft_based_distributed_l.Node.Context.{new_start_node_context, NodeContext}
use raft_based_distributed_l.Storage.LogMemory.{new_log_memory, fetch_log_entry, LogMemory}
use raft_based_distributed_l.Storage.Codec.{Codec}
use raft_based_distributed_l.Prelude.{
  not, length, add64, ◌||◌, ltb, text, ◌==◌, if◌then◌else◌, Option, Bytes, ℕ, List, none, some, [],
  ◌∷◌, true, false,
}
use raft_based_distributed_l.Exec.{
  peer_list_empty, recover_log_memory, init_state_map, Exec, init_peer_list, Result, ok, err,
}
use raft_based_distributed_l.Storage.StateMap.{StateMap}
use raft_based_distributed_l.Storage.StateMap.DLock
use raft_based_distributed_l.Storage.StateMap.KvStore
use raft_based_distributed_l.Node.State.{with_context, PeerNode, NodeConfig, Node}

-- The file is beside the node; it may be nil. An error is only logged, behind what was written.
unfoldable pub backup_procedure :
    {W : Type 0} → Codec → (Bytes → Exec W ℕ) → Node → Option W → Node × Option W
backup_procedure codec write n none = (n, none)
backup_procedure codec write n (some w) =
    let (r, w') =
      store_log_memory codec write (add64 n.context.last_backup_index 1) n.context.commit_index
        n.log_entry_in_memory w in
    if ltb n.context.last_backup_index n.context.commit_index
    then elim r [
      | err _ ↦ (n, some w')
      | ok _ ↦ (with_context (λ nc. record nc { last_backup_index = nc.commit_index }) n, some w')
    ]
    else (n, some w)

unfoldable pub new_peer_nodes : List ℕ → List PeerNode
new_peer_nodes [] = []
new_peer_nodes (id ∷ ids) =
    record { peer_id = id; next_index = 0; match_index = 0 } ∷ new_peer_nodes ids

unfoldable pub new_peer_node_list_from_config : NodeConfig → ℕ → Result (List PeerNode)
new_peer_node_list_from_config config addresses =
    if addresses == 0 || length config.peer_id == 0 || not (addresses == length config.peer_id)
    then err peer_list_empty
    else ok (new_peer_nodes config.peer_id)

-- The context after the log has been read.
unfoldable pub recovered_context : ℕ → LogMemory → Result NodeContext
recovered_context now lm =
    let nc = record (new_start_node_context now) {
      last_backup_index = lm.maximum_index;
      commit_index = lm.maximum_index;
      last_applied_index = lm.maximum_index;
    } in
    if lm.maximum_index == 0 then ok nc else elim (fetch_log_entry lm lm.maximum_index) [
      | err _ ↦ err recover_log_memory
      | ok e ↦ ok (record nc { current_term = e.entry.term })
    ]

-- The two maps from the whole log: the lock map and the key value map.
unfoldable pub recovered_maps : Codec → LogMemory → Result (StateMap × StateMap)
recovered_maps codec lm = elim (DLock.new_state_map_dlock (text "DLock")) [
  | err _ ↦ err init_state_map
  | ok dlock ↦ elim (KvStore.new_state_map_kv_store (text "KVStore")) [
    | err _ ↦ err init_state_map
    | ok kv ↦
        let (r, dlock') = DLock.update_state_from_log_memory codec lm 1 lm.maximum_index dlock in
        let (q, kv') = KvStore.update_state_from_log_memory codec lm 1 lm.maximum_index kv in
        if lm.maximum_index == 0 then ok (dlock, kv) else elim r [
          | err _ ↦ err init_state_map
          | ok _ ↦ elim q [ err _ ↦ err init_state_map | ok _ ↦ ok (dlock', kv') ]
        ]
  ]
]

unfoldable pub recovered_node : Codec → NodeConfig → ℕ → ℕ → LogMemory → Result Node
recovered_node codec config addresses now lm = elim (recovered_context now lm) [
  | err e ↦ err e
  | ok context ↦ elim (recovered_maps codec lm) [
    | err e ↦ err e
    | ok (dlock, kv) ↦ elim (new_peer_node_list_from_config config addresses) [
      | err _ ↦ err init_peer_list
      | ok peers ↦ ok (record {
        config = config;
        context = context;
        state_map_kv_store = kv;
        state_map_dlock = dlock;
        log_entry_in_memory = lm;
        peer_list = peers;
        dlock_interchange = none;
        spawned = [];
      })
    ]
  ]
]

-- What the file holds is read in full; the outer `none` is out of fuel.
unfoldable pub new_node : Codec → NodeConfig → ℕ → ℕ → Bytes → Option (Result Node)
new_node codec config addresses now file = elim (reload_log_memory codec file new_log_memory) [
  | none ↦ none
  | some (r, lm) ↦ some (elim r [
    | err _ ↦ err recover_log_memory
    | ok _ ↦ recovered_node codec config addresses now lm
  ])
]
