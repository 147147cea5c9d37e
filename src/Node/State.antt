-- ===== src/Node/State.antt =====
-- The node's state (node/node.go, node/peer.go, node/node_config.go), and the steps that several
-- components take: becoming a follower and applying the committed entries. Time is an argument, and
-- the goroutines that a step starts are listed in `spawned`, the last first.
pub mod Commit
use raft_based_distributed_l.Prelude.{ltb, Option, if◌then◌else◌, List, ◌∷◌, add64, ℕ}
use raft_based_distributed_l.Dict.{Dict}
use raft_based_distributed_l.Storage.Codec.{Codec}
use raft_based_distributed_l.Storage.LogMemory.{LogMemory}
use raft_based_distributed_l.Storage.StateMap.{StateMap}
use raft_based_distributed_l.Storage.StateMap.DLock
use raft_based_distributed_l.Storage.StateMap.KvStore
use raft_based_distributed_l.Node.Acquirement.{DlockVolatileAcquirement}
use raft_based_distributed_l.Node.Context.{NodeContext, NodeState}

-- The fields of the configuration that the modelled steps read.
pub record NodeConfig : Type 0 where
  pub self_id : ℕ
  pub peer_id : List ℕ
  pub max_log_units_recover : ℕ
  pub acquirement_expire : ℕ

pub record PeerNode : Type 0 where
  pub peer_id : ℕ
  pub next_index : ℕ
  pub match_index : ℕ

-- The fields of DlockInterchange but for its reference to the node.
pub record DlockInterchange : Type 0 where
  pub leader_term : ℕ
  pub pending_acquire : Dict DlockVolatileAcquirement

pub data Task : Type 0 where
  run_election_detector : Task
  release_expired_dlock_periodically : Task
  heart_beat : Task
  send_append_entries : List ℕ → Task
  request_vote : ℕ → Task
  send_append_entries_to_all : Task
  start_node_server start_cli_server back_up_log_memory_to_disk commit_to_state_map : Task

pub record Node : Type 0 where
  pub config : NodeConfig
  pub context : NodeContext
  pub state_map_kv_store : StateMap
  pub state_map_dlock : StateMap
  pub log_entry_in_memory : LogMemory
  pub peer_list : List PeerNode
  pub dlock_interchange : Option DlockInterchange
  pub spawned : List Task

abbrev pub spawn : Task → Node → Node
spawn t n = record n { spawned = t ∷ n.spawned }

abbrev pub with_context : (NodeContext → NodeContext) → Node → Node
with_context f n = record n { context = f n.context }

unfoldable pub become_follower : ℕ → ℕ → Node → Node
become_follower now term n = spawn run_election_detector (record n {
  context = record n.context {
    voted_peer = 0;
    current_term = term;
    node_state = NodeState.follower;
    election_restart_time = now;
  };
})

module _ (codec : Codec) where
  -- Errors of the two maps are only logged.
  unfoldable pub commit_procedure : Node → Node
  commit_procedure n =
      let start = add64 n.context.last_applied_index 1 in
      let last = n.context.commit_index in
      if ltb n.context.last_applied_index n.context.commit_index
      then record n {
        state_map_dlock =
            (DLock.update_state_from_log_memory codec n.log_entry_in_memory start last
              n.state_map_dlock).1;
        state_map_kv_store =
            (KvStore.update_state_from_log_memory codec n.log_entry_in_memory start last
              n.state_map_kv_store).1;
        context = record n.context { last_applied_index = last };
      }
      else n
