-- ===== src/Tests/Answers.antt =====
-- The leader's handling of answers.
use raft_based_distributed_l.Node.Messages.{AppendEntriesResponse, AppendEntriesRequest}
use raft_based_distributed_l.Exec.{ok}
use raft_based_distributed_l.Util.{uint64_min}
use raft_based_distributed_l.Node.P2pServer.Matching.{ListedFrom}
use raft_based_distributed_l.Storage.LogEntry.{LogEntry}
use raft_based_distributed_l.Storage.LogMemory.{
  insert_log_entry, fetch_log_entry, insert_valid_entry_list,
}
use raft_based_distributed_l.Node.Replication.Requests.{
  entry_length_of, build_request-ListedFrom, prev_entry_term_of, collect_entries, build_request,
}
use raft_based_distributed_l.Storage.LogMemory.Laws.{IsValid, insert_valid_entry_list-IsValid}
use raft_based_distributed_l.Tests.Samples.{
  alice, bob, info_of, entry_of, pb_entry, empty_log, two_entries, node_in,
}
use raft_based_distributed_l.Node.Replication.{handle_append_response, Sent}
use raft_based_distributed_l.Node.Replication.Majority.{
  handle_append_response-Committed, Committed, Raised,
}
use raft_based_distributed_l.Node.State.{Node, PeerNode}
use raft_based_distributed_l.Prelude.{◌≡◌, List, ◌+◌, refl, arith, true, [], ◌∷◌, ℕ}
use raft_based_distributed_l.Node.Context.{leader}

abbrev peer_of : ℕ → PeerNode
peer_of id = record { peer_id = id; next_index = 2; match_index = 1 }

abbrev leads : Node
leads = record (node_in leader two_entries) { peer_list = peer_of 2 ∷ peer_of 3 ∷ [] }

abbrev second_sent : Sent
second_sent = record { start_current_term = 2; next_index = 2; entry_length = 1; peer = 0 }

abbrev stored_answer : AppendEntriesResponse
stored_answer = record {
  term = 2;
  node_id = 2;
  conflict_entry_index = 0;
  conflict_entry_term = 0;
  commit_entry_index = 1;
  success = true;
}

handle_append_response-Committed_example :
    Raised 3 0
      (peer_of 2 ∷ peer_of 3 ∷ [])
      (handle_append_response 7 2 second_sent stored_answer leads).peer_list
    × Committed 2
        (handle_append_response 7 2 second_sent stored_answer leads).peer_list
        1
        2
        (handle_append_response 7 2 second_sent stored_answer leads).context.commit_index
handle_append_response-Committed_example =
    handle_append_response-Committed 7 2 second_sent stored_answer leads refl refl refl
      (omega arith) (omega arith) (omega arith) (omega arith)

abbrev both : List LogEntry
both = entry_of 1 1 (info_of 1 alice 5 10) ∷ entry_of 2 2 (info_of 2 bob 20 10) ∷ []

empty_log-IsValid : IsValid empty_log
empty_log-IsValid = record { indexed = λ i e h. cc; bounded = λ i e h. cc }

abbrev sends : Node
sends = record leads { log_entry_in_memory = (insert_valid_entry_list both empty_log).1 }

abbrev second_request : AppendEntriesRequest
second_request = record {
  term = 2;
  node_id = 1;
  prev_entry_index = 1;
  prev_entry_term = 1;
  commit_entry_index = 1;
  entry_list = pb_entry 2 2 (info_of 2 bob 20 10) ∷ [];
}

second_built : build_request 2 sends ≡ ok second_request
unfolding build_request collect_entries prev_entry_term_of entry_length_of uint64_min
    fetch_log_entry insert_valid_entry_list insert_log_entry
second_built = refl

build_request-ListedFrom_example :
    (second_request.prev_entry_index + 1 ≡ 2)
    × ListedFrom second_request.prev_entry_index second_request.entry_list
build_request-ListedFrom_example =
    build_request-ListedFrom 2 sends second_request
      (insert_valid_entry_list-IsValid both empty_log empty_log-IsValid) (omega arith) (omega arith)
      second_built
