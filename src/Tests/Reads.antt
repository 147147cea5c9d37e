-- ===== src/Tests/Reads.antt =====
-- A put, its commit, and a read.
use raft_based_distributed_l.Node.ClientServer.Reads.{get_state_kv-put_state_kv}
use raft_based_distributed_l.Storage.Command.{
  get_command_content, get_command_name, get_fast_index, get_as_kv_store, new_command_kv_store,
  new_command_from_raw, kv_store_keyword,
}
use raft_based_distributed_l.Tests.Samples.{empty_log, node_in}
use raft_based_distributed_l.Storage.LogEntry.{new_log_entry, LogEntry}
use raft_based_distributed_l.Storage.LogMemory.{update, fetch_log_entry}
use raft_based_distributed_l.Tests.JsonLike.{json_like-IsCodec, encode_value, json_like}
use raft_based_distributed_l.Storage.StateMap.{StateMap, update_loop}
use raft_based_distributed_l.Node.State.{Node}
use raft_based_distributed_l.Node.ClientServer.{
  put_entry, append_put, put_as_leader, waits, put_state_kv, get_state_kv,
}
use raft_based_distributed_l.Node.Context.{leader}
use raft_based_distributed_l.Storage.StateMap
use raft_based_distributed_l.Storage.StateMap.KvStore
use raft_based_distributed_l.Dict
use raft_based_distributed_l.Exec.{ok}
use raft_based_distributed_l.Prelude.{
  text_eq, arith, text, has_prefix, ◌≡◌, none, some, [], ◌∷◌, refl,
}

abbrev leading : Node
leading = node_in leader empty_log

abbrev written : LogEntry
written = record {
  entry = record {
    term = 2;
    index = 1;
    command_name = kv_store_keyword;
    command_content = encode_value (text "k") (some (7 ∷ []));
  };
  fast_index = text "KVStore:k";
}

put_waits : (put_state_kv json_like [] 0 (text "k") (some (7 ∷ [])) leading).0 ≡ ok (waits written)
unfolding put_state_kv put_as_leader append_put put_entry new_command_kv_store new_log_entry
    get_fast_index get_as_kv_store get_command_name get_command_content
put_waits = refl

-- The leader has stored the entry.
abbrev storing : Node
storing =
    node_in leader
      (record { log_in_memory = update (λ _. none) 1 (some written); maximum_index = 1 })

abbrev applied : StateMap
applied = record {
  keyword = text "KVStore";
  state_map = (text "k", 7 ∷ []) ∷ [];
  prev_index = 1;
  prev_term = 2;
}

written_applied :
    KvStore.update_state_from_log_memory json_like storing.log_entry_in_memory 1 1
      storing.state_map_kv_store
    ≡ (ok tt, applied)
unfolding KvStore.update_state_from_log_memory StateMap.update_state_from_log_memory update_loop
    fetch_log_entry KvStore.update_state_from_log_entry KvStore.apply_command has_prefix
    new_command_from_raw KvStore.as_command_kv_store get_as_kv_store text_eq KvStore.put_or_delete
    Dict.insert
written_applied = refl

written_stored : fetch_log_entry storing.log_entry_in_memory 1 ≡ ok written
unfolding fetch_log_entry
written_stored = refl

get_state_kv-put_state_kv_example :
    (get_state_kv json_like (text "k") (record storing { state_map_kv_store = applied })).0
    ≡ ok (7 ∷ [])
get_state_kv-put_state_kv_example =
    get_state_kv-put_state_kv json_like [] 0 (text "k") (some (7 ∷ [])) leading storing written 1
      applied json_like-IsCodec put_waits written_stored (omega arith) refl written_applied
