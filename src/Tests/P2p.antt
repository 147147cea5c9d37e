-- ===== src/Tests/P2p.antt =====
-- The services of node/p2p_server.go.
use raft_based_distributed_l.Node.Messages.{AppendEntriesRequest, CandidateVotesRequest}
use raft_based_distributed_l.Storage.Command.{
  get_as_dlock_info, get_fast_index, new_command_from_raw,
}
use raft_based_distributed_l.Storage.LogEntry.{new_log_entry_list}
use raft_based_distributed_l.Node.State.{become_follower}
use raft_based_distributed_l.Storage.LogMemory.{
  insert_log_entry, insert_valid_entry_list, fetch_log_entry,
}
use raft_based_distributed_l.Tests.Samples.{
  alice, info_of, two_entries, node_in, empty_log, pb_entry,
}
use raft_based_distributed_l.Node.P2pServer.Matching.{append_entries_service-Matches, Matches}
use raft_based_distributed_l.Node.P2pServer.{
  advance_commit, store_entries, new_log_entries, accept_entries, prev_matches, hear_leader,
  follow_leader, last_entry_term, hear_higher, append_entries_alive, vote_in_term,
  candidate_votes_service, append_entries_service,
}
use raft_based_distributed_l.Node.P2pServer.Votes.{
  one_vote_per_term, candidate_votes_service-Voted, serve_votes, accepts, Voted,
}
use raft_based_distributed_l.Node.P2pServer.Commits.{append_entries_service-Advanced, Advanced}
use raft_based_distributed_l.Storage.LogMemory.Contents.{IsContiguous}
use raft_based_distributed_l.Tests.JsonLike.{json_like}
use raft_based_distributed_l.Prelude.{text_eq, false, refl, true, arith, [], ◌∷◌, ℕ, ◌≡◌}
use raft_based_distributed_l.Node.Context.{follower}
use raft_based_distributed_l.Node.P2pServer.Stored.{
  succeeds, append_entries_service-Answered, Answered,
}

empty_log-IsContiguous : IsContiguous empty_log
empty_log-IsContiguous = record {
  valid = record { indexed = λ i e h. cc; bounded = λ i e h. cc };
  present = λ i pos top. absurd (omega arith);
}

abbrev append_one : AppendEntriesRequest
append_one = record {
  term = 3;
  node_id = 2;
  prev_entry_index = 0;
  prev_entry_term = 0;
  commit_entry_index = 1;
  entry_list = pb_entry 3 1 (info_of 1 alice 5 10) ∷ [];
}

append_one_succeeds :
    succeeds (append_entries_service json_like 7 append_one (node_in follower empty_log)).0 ≡ true
unfolding append_entries_service append_entries_alive hear_higher become_follower follow_leader
    hear_leader prev_matches accept_entries new_log_entries new_log_entry_list new_command_from_raw
    get_fast_index get_as_dlock_info text_eq store_entries insert_valid_entry_list insert_log_entry
    advance_commit
append_one_succeeds = refl

append_entries_service-Matches_example :
    Matches json_like append_one empty_log
      (append_entries_service json_like 7 append_one
        (node_in follower empty_log)).1.log_entry_in_memory
append_entries_service-Matches_example =
    append_entries_service-Matches json_like 7 append_one (node_in follower empty_log) refl
      (refl, tt) empty_log-IsContiguous append_one_succeeds

append_entries_service-Answered_example :
    Answered json_like append_one
      (node_in follower empty_log)
      (append_entries_service json_like 7 append_one (node_in follower empty_log))
append_entries_service-Answered_example =
    append_entries_service-Answered json_like 7 append_one (node_in follower empty_log) refl

append_entries_service-Advanced_example :
    Advanced
      (node_in follower two_entries)
      (append_entries_service json_like 7 append_one (node_in follower two_entries)).1
append_entries_service-Advanced_example =
    append_entries_service-Advanced json_like 7 append_one (node_in follower two_entries) refl
      (omega arith)

abbrev vote_of : ℕ → CandidateVotesRequest
vote_of id = record { term = 2; node_id = id; prev_entry_index = 2; prev_entry_term = 2 }

candidate_votes_service-Voted_example :
    Voted 7
      (vote_of 2)
      (node_in follower two_entries)
      (candidate_votes_service 7 (vote_of 2) (node_in follower two_entries))
candidate_votes_service-Voted_example =
    candidate_votes_service-Voted 7 (vote_of 2) (node_in follower two_entries)

vote_granted :
    accepts (candidate_votes_service 7 (vote_of 2) (node_in follower two_entries)).0 ≡ true
unfolding candidate_votes_service vote_in_term last_entry_term fetch_log_entry
vote_granted = refl

one_vote_per_term_example :
    accepts
      (candidate_votes_service 9 (vote_of 3) (
        serve_votes
          ((8, vote_of 2) ∷ [])
          (candidate_votes_service 7 (vote_of 2) (node_in follower two_entries)).1)).0
    ≡ false
one_vote_per_term_example =
    one_vote_per_term 7 9 (vote_of 2) (vote_of 3) (node_in follower two_entries)
      ((8, vote_of 2) ∷ []) (λ h. omega arith) vote_granted refl (λ h. omega arith)
