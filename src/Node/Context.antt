-- ===== src/Node/Context.antt =====
-- node/node_context.go: what changes while the node runs. A channel of capacity 1 is the number of
-- the messages in it. The file of the log's backup and the stop channel are left out.
use raft_based_distributed_l.Prelude.{◌==◌, if◌then◌else◌, ℕ}

pub data NodeState : Type 0 where
  dead leader candidate follower : NodeState

pub record NodeContext : Type 0 where
  pub current_term : ℕ
  pub commit_index : ℕ
  pub last_applied_index : ℕ
  pub last_backup_index : ℕ
  pub node_state : NodeState
  pub hop_to_current_leader_id : ℕ
  pub commit_chan : ℕ
  pub append_entry_chan : ℕ
  pub voted_peer : ℕ
  pub election_restart_time : ℕ

-- The values of `NewNodeContext` in NewStartNodeContext.
unfoldable pub new_start_node_context : ℕ → NodeContext
new_start_node_context now = record {
  current_term = 1;
  commit_index = 0;
  last_applied_index = 0;
  last_backup_index = 0;
  node_state = NodeState.dead;
  hop_to_current_leader_id = 0;
  commit_chan = 0;
  append_entry_chan = 0;
  voted_peer = 0;
  election_restart_time = now;
}

unfoldable pub trigger_ae_channel : NodeContext → NodeContext
trigger_ae_channel nc =
    if nc.append_entry_chan == 0 then record nc { append_entry_chan = 1 } else nc

unfoldable pub trigger_commit_channel : NodeContext → NodeContext
trigger_commit_channel nc = if nc.commit_chan == 0 then record nc { commit_chan = 1 } else nc
