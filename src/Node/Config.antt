-- ===== src/Node/Config.antt =====
-- node/node_config.go: the configuration of a node, and the election timeout that it sets. The
-- reading of the file, yaml and the table of log levels are parameters.
pub mod Complete
use raft_based_distributed_l.Node.State.{NodeConfig}
use raft_based_distributed_l.Prelude.{
  length, ◌+◌, not, text, text_eq, Bytes, sub32, if◌then◌else◌, ◌==◌, ◌||◌, Text, ℕ, List, Bool,
  Option, none, some, true, false, [], ◌∷◌,
}
use raft_based_distributed_l.Exec.{
  node_config_id_zero, node_config_peer_number, go_panic, node_config_nil_value, Result, ok, err,
}

-- Each in milliseconds, but `max_log_units_recover`.
pub record Parameters : Type 0 where
  pub heart_beat_interval : ℕ
  pub append_entries_timeout : ℕ
  pub min_wait_time_candidate : ℕ
  pub max_wait_time_candidate : ℕ
  pub max_log_units_recover : ℕ
  pub log_backup_interval : ℕ
  pub polling_interval : ℕ
  pub state_change_timeout : ℕ
  pub acquirement_expire : ℕ

-- A slice that the file does not name is nil.
pub record ConfigFile : Type 0 where
  pub self_id : ℕ
  pub peer_id : Option (List ℕ)
  pub self_address : Text
  pub self_cli_address : Text
  pub peer_address : Option (List Text)
  pub peer_cli_address : Option (List Text)
  pub parameters : Parameters
  pub log_path : Text
  pub log_level : Text
  pub entry_storage_path : Text

abbrev pub is_nil : {A : Type 0} → Option A → Bool
is_nil none = true
is_nil (some _) = false

abbrev pub items : {A : Type 0} → Option (List A) → List A
items none = []
items (some xs) = xs

unfoldable pub has_nil : ConfigFile → Bool
has_nil c =
    is_nil c.peer_id
    || is_nil c.peer_address
    || is_nil c.peer_cli_address
    || text_eq c.log_path []
    || text_eq c.entry_storage_path []
    || text_eq c.self_cli_address []
    || text_eq c.self_address []

unfoldable pub has_zero : List ℕ → Bool
has_zero [] = false
has_zero (id ∷ ids) = id == 0 || has_zero ids

-- structByReflect on one field.
unfoldable pub or_default : ℕ → ℕ → ℕ
or_default default value = if value == 0 then default else value

unfoldable pub set_defaults : Parameters → Parameters
set_defaults p = record {
  heart_beat_interval = or_default 50 p.heart_beat_interval;
  append_entries_timeout = or_default 150 p.append_entries_timeout;
  min_wait_time_candidate = or_default 150 p.min_wait_time_candidate;
  max_wait_time_candidate = or_default 300 p.max_wait_time_candidate;
  max_log_units_recover = or_default 200 p.max_log_units_recover;
  log_backup_interval = or_default 1000 p.log_backup_interval;
  polling_interval = or_default 20 p.polling_interval;
  state_change_timeout = or_default 2000 p.state_change_timeout;
  acquirement_expire = or_default 500 p.acquirement_expire;
}

module _ (read_file : Text → Result Bytes) (unmarshal : Bytes → Result ConfigFile)
    (is_info_level : Text → Bool) where
  abbrev pub set_log_level : ConfigFile → ConfigFile
  set_log_level c = record c {
    log_level = if is_info_level c.log_level then text "Info" else c.log_level;
  }

  -- The tests of the parsed file, then the defaults.
  unfoldable pub checked_config : ConfigFile → Result ConfigFile
  checked_config c =
      if has_nil c
      then err node_config_nil_value
      else if not (length (items c.peer_id) == length (items c.peer_address))
          || not (length (items c.peer_id) == length (items c.peer_cli_address))
      then err node_config_peer_number
      else if c.self_id == 0 || has_zero (items c.peer_id)
      then err node_config_id_zero
      else (let c' = set_log_level c in ok (record c' { parameters = set_defaults c'.parameters }))

  unfoldable pub new_node_config_from_yaml : Text → Result ConfigFile
  unfolding checked_config
  new_node_config_from_yaml path = elim (read_file path) [
    | err e ↦ err e
    | ok bytes ↦ elim (unmarshal bytes) [ err e ↦ err e | ok c ↦ checked_config c ]
  ]

-- The fields that the steps of a node read.
abbrev pub node_config : ConfigFile → NodeConfig
node_config c = record {
  self_id = c.self_id;
  peer_id = items c.peer_id;
  max_log_units_recover = c.parameters.max_log_units_recover;
  acquirement_expire = c.parameters.acquirement_expire;
}

-- In milliseconds; `random` is what rand.Intn gives for a bound. It panics at the bound 0.
unfoldable pub random_election_timeout : (ℕ → ℕ) → Parameters → Result ℕ
random_election_timeout random p =
    let bound = sub32 p.max_wait_time_candidate p.min_wait_time_candidate in
    if bound == 0 then err go_panic else ok (p.min_wait_time_candidate + random bound)
