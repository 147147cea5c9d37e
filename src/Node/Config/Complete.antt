-- ===== src/Node/Config/Complete.antt =====
-- What a configuration that is accepted gives to the node.
use raft_based_distributed_l.Node.State.{Node}
use raft_based_distributed_l.Node.ClientServer.{leader_address}
use raft_based_distributed_l.Util.{number_in_uint32_list}
use raft_based_distributed_l.Node.Config.{ConfigFile, Parameters, has_nil, items, node_config}
use raft_based_distributed_l.Prelude.{◌⊎◌, Text, ◌≡◌, length, ℕ, ◌≢◌, true, false}
use raft_based_distributed_l.Exec.{ok}

-- No parameter is zero.
pub record IsPositive (p : Parameters) : Type 0 where
  pub heart_beat : p.heart_beat_interval ≢ 0
  pub append_entries : p.append_entries_timeout ≢ 0
  pub min_wait : p.min_wait_time_candidate ≢ 0
  pub max_wait : p.max_wait_time_candidate ≢ 0
  pub max_units : p.max_log_units_recover ≢ 0
  pub backup : p.log_backup_interval ≢ 0
  pub polling : p.polling_interval ≢ 0
  pub state_change : p.state_change_timeout ≢ 0
  pub expire : p.acquirement_expire ≢ 0

-- A configuration that a node can run with.
pub record IsComplete (c : ConfigFile) : Type 0 where
  pub names : has_nil c ≡ false
  pub self : c.self_id ≢ 0
  pub peers : (id : ℕ) → number_in_uint32_list (items c.peer_id) id ≡ true → id ≢ 0
  pub addresses : length (items c.peer_id) ≡ length (items c.peer_address)
  pub parameters : IsPositive c.parameters
  pub leaders :
      (choice : ℕ) (n : Node)
      → n.config ≡ node_config c
      → (n.context.hop_to_current_leader_id ≡ 0)
        ⊎ (number_in_uint32_list n.config.peer_id n.context.hop_to_current_leader_id ≡ true)
      → (address : Text) × (leader_address (items c.peer_cli_address) choice n ≡ ok address)
