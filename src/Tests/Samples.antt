-- ===== src/Tests/Samples.antt =====
-- A lock, its entries, and nodes in several states.
use raft_based_distributed_l.Node.State.{Node}
use raft_based_distributed_l.Storage.Command.{dlock_keyword, Command}
use raft_based_distributed_l.Tests.JsonLike.{encode_lock_info, encode_dlock_state}
use raft_based_distributed_l.Storage.LogEntry.{LogEntry}
use raft_based_distributed_l.Storage.StateMap.{StateMap}
use raft_based_distributed_l.Storage.LogMemory.{update, LogMemory}
use raft_based_distributed_l.Node.Acquirement.{DlockVolatileAcquirement, DlockAcquirementInfo}
use raft_based_distributed_l.Storage.Codec.{Entry, LockInfo, DlockState}
use raft_based_distributed_l.Prelude.{Text, none, some, Option, [], ◌∷◌, text, ℕ}
use raft_based_distributed_l.Node.Context.{NodeContext, NodeState, leader}
use raft_based_distributed_l.Node.Interchange.{Leading}

abbrev pub lock : Text
lock = text "lock"

abbrev pub alice : Text
alice = text "alice"

abbrev pub bob : Text
bob = text "bob"

abbrev pub info_of : ℕ → Text → ℕ → ℕ → LockInfo
info_of nonce owner timestamp expire = record {
  lock_nonce = nonce;
  lock_name = lock;
  new_owner = owner;
  timestamp = timestamp;
  expire = expire;
}

abbrev pub command_of : LockInfo → Command
command_of info = record { command_name = dlock_keyword; command_content = encode_lock_info info }

abbrev pub pb_entry : ℕ → ℕ → LockInfo → Entry
pb_entry term index info = record {
  term = term;
  index = index;
  command_name = dlock_keyword;
  command_content = encode_lock_info info;
}

abbrev pub entry_of : ℕ → ℕ → LockInfo → LogEntry
entry_of term index info = record {
  entry = pb_entry term index info;
  fast_index = text "DLock:lock";
}

abbrev pub empty_log : LogMemory
empty_log = record { log_in_memory = λ _. none; maximum_index = 0 }

abbrev pub two_at : ℕ → Option LogEntry
two_at =
    update (update (λ _. none) 1 (some (entry_of 1 1 (info_of 1 alice 5 10)))) 2
      (some (entry_of 2 2 (info_of 2 bob 20 10)))

abbrev pub two_entries : LogMemory
two_entries = record { log_in_memory = two_at; maximum_index = 2 }

abbrev pub locked : DlockState
locked = record { owner = alice; lock_nonce = 1; lock_name = lock; timestamp = 5; expire = 10 }

abbrev pub lock_map : StateMap
lock_map = record {
  keyword = text "DLock";
  state_map = (lock, encode_dlock_state locked) ∷ [];
  prev_index = 1;
  prev_term = 1;
}

abbrev pub empty_map : Text → StateMap
empty_map keyword = record { keyword = keyword; state_map = []; prev_index = 0; prev_term = 0 }

abbrev pub context_in : NodeState → NodeContext
context_in state = record {
  current_term = 2;
  commit_index = 1;
  last_applied_index = 1;
  last_backup_index = 0;
  node_state = state;
  hop_to_current_leader_id = 0;
  commit_chan = 0;
  append_entry_chan = 0;
  voted_peer = 0;
  election_restart_time = 0;
}

abbrev pub node_in : NodeState → LogMemory → Node
node_in state lm = record {
  config = record {
    self_id = 1;
    peer_id = 2 ∷ 3 ∷ [];
    max_log_units_recover = 10;
    acquirement_expire = 1;
  };
  context = context_in state;
  state_map_kv_store = empty_map (text "KVStore");
  state_map_dlock = lock_map;
  log_entry_in_memory = lm;
  peer_list = [];
  dlock_interchange = none;
  spawned = [];
}

abbrev pub waiting_none : DlockVolatileAcquirement
waiting_none = record {
  lock_name = lock;
  last_processed_acquirement = 0;
  last_assigned_acquirement = 0;
  last_appended_nonce = 1;
  pending_acquirement = λ _. none;
}

abbrev pub bob_waits : DlockAcquirementInfo
bob_waits = record {
  acquirer = bob;
  last_refreshed_timestamp = 6;
  expire = 100;
  command = command_of (info_of 0 bob 0 10);
}

abbrev pub one_at : ℕ → Option DlockAcquirementInfo
one_at = update (λ _. none) 1 (some bob_waits)

abbrev pub waiting_bob : DlockVolatileAcquirement
waiting_bob = record {
  lock_name = lock;
  last_processed_acquirement = 0;
  last_assigned_acquirement = 1;
  last_appended_nonce = 1;
  pending_acquirement = one_at;
}

-- The leader with alice's committed lock, whose lease ends at 15.
abbrev pub leading : Leading
leading = record {
  interchange = record { leader_term = 2; pending_acquire = (lock, waiting_none) ∷ [] };
  node = node_in leader two_entries;
}
