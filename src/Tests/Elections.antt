-- ===== src/Tests/Elections.antt =====
-- An election in a cluster of three nodes.
use raft_based_distributed_l.Node.Messages.{CandidateVotesRequest}
use raft_based_distributed_l.Node.P2pServer.{vote_higher, candidate_votes_service}
use raft_based_distributed_l.Node.Election.Tally.{Answer, Voters}
use raft_based_distributed_l.Node.Election.Leaders.{handle_candidate_vote-IsLeading, IsLeading}
use raft_based_distributed_l.Node.Election.Quorums.{IsElected}
use raft_based_distributed_l.Node.Interchange.Expiry.{
  init_from_dlock_state_map, scan_dlock_state_map, scan_loop, append_releases, insert_entries,
  count_entries,
}
use raft_based_distributed_l.Storage.LogMemory.{insert_valid_entry_list}
use raft_based_distributed_l.Node.State.{become_follower, commit_procedure}
use raft_based_distributed_l.Tests.JsonLike.{json_like}
use raft_based_distributed_l.Tests.Samples.{empty_log, node_in}
use raft_based_distributed_l.Node.Election.Runs.{
  at_node, Grant, Cluster, votes, stands, begins, Steps,
}
use raft_based_distributed_l.Node.Election.Safety.{one_leader_per_term}
use raft_based_distributed_l.Node.Election.Votes.{starts, handle_candidate_vote-Majority}
use raft_based_distributed_l.Node.Election.{
  clear_votes, become_leader, count_vote, counted_ballot, handle_candidate_vote, request_votes,
  Ballot, start_candidate_vote_module,
}
use raft_based_distributed_l.Node.State.{Node}
use raft_based_distributed_l.Prelude.{
  ◌≡◌, arith, refl, length, ◌+◌, ◌*◌, ◌<◌, ℕ, List, [], ◌∷◌, true, inl, inr,
}
use raft_based_distributed_l.Node.Context.{follower}

abbrev voter : Node
voter = node_in follower empty_log

-- Peer 2 votes for the candidate in term 3.
abbrev vote_of_2 : Answer
vote_of_2 = record { peer = 2; response = record { term = 3; node_id = 2; accepted = true } }

abbrev ballot : Ballot
ballot = (start_candidate_vote_module 50 voter).0

abbrev standing : Node
standing = (start_candidate_vote_module 50 voter).1

handle_candidate_vote-Majority_example :
    (voters : List ℕ) × Voters 1 3 (vote_of_2 ∷ []) voters × (3 < 2 * (1 + length voters))
unfolding start_candidate_vote_module request_votes handle_candidate_vote counted_ballot count_vote
    become_leader clear_votes init_from_dlock_state_map scan_dlock_state_map scan_loop
    append_releases insert_entries insert_valid_entry_list count_entries commit_procedure
handle_candidate_vote-Majority_example =
    handle_candidate_vote-Majority json_like 60 [] vote_of_2 [] ballot standing
      (starts 50 voter refl) refl refl

abbrev three : List ℕ
three = 1 ∷ 2 ∷ 3 ∷ []

standing-IsElected : IsElected json_like three 60 [] vote_of_2 [] ballot standing
unfolding start_candidate_vote_module request_votes handle_candidate_vote counted_ballot count_vote
    become_leader clear_votes init_from_dlock_state_map scan_dlock_state_map scan_loop
    append_releases insert_entries insert_valid_entry_list count_entries commit_procedure
standing-IsElected = record {
  election = starts 50 voter refl;
  before = refl;
  after = refl;
  cluster = refl;
  member = refl;
  peers = (refl, tt);
}

-- Peer 3 votes for it as well.
abbrev vote_of_3 : Answer
vote_of_3 = record { peer = 3; response = record { term = 3; node_id = 3; accepted = true } }

standing-IsElected_by_3 : IsElected json_like three 65 [] vote_of_3 [] ballot standing
unfolding start_candidate_vote_module request_votes handle_candidate_vote counted_ballot count_vote
    become_leader clear_votes init_from_dlock_state_map scan_dlock_state_map scan_loop
    append_releases insert_entries insert_valid_entry_list count_entries commit_procedure
standing-IsElected_by_3 = record {
  election = starts 50 voter refl;
  before = refl;
  after = refl;
  cluster = refl;
  member = refl;
  peers = (refl, tt);
}

abbrev request_of_1 : CandidateVotesRequest
request_of_1 = record { term = 3; node_id = 1; prev_entry_index = 0; prev_entry_term = 0 }

abbrev numbered : Cluster
numbered i = record voter { config = record voter.config { self_id = i } }

abbrev stood : Cluster
stood = at_node 1 (start_candidate_vote_module 50 (numbered 1)).1 numbered

abbrev voted_2 : Cluster
voted_2 = at_node 2 (candidate_votes_service 55 request_of_1 (stood 2)).1 stood

abbrev voted_3 : Cluster
voted_3 = at_node 3 (candidate_votes_service 56 request_of_1 (voted_2 3)).1 voted_2

abbrev for_1 : ℕ → Grant
for_1 i = record { voter = i; term = 3; candidate = 1 }

run : Steps json_like (for_1 3 ∷ for_1 2 ∷ for_1 1 ∷ []) voted_3
unfolding candidate_votes_service vote_higher become_follower
run =
    votes 3 56 request_of_1 (for_1 2 ∷ for_1 1 ∷ []) voted_2
      (votes 2 55 request_of_1 (for_1 1 ∷ []) stood
        (stands 1 50 [] numbered (begins numbered) refl (λ h. omega arith) (omega arith))
        (λ h. omega arith) refl)
      (λ h. omega arith) refl

one_leader_per_term_example : standing.config.self_id ≡ standing.config.self_id
unfolding start_candidate_vote_module request_votes
one_leader_per_term_example =
    one_leader_per_term json_like (for_1 3 ∷ for_1 2 ∷ for_1 1 ∷ []) voted_3 three 60 [] vote_of_2
      [] ballot standing 65 [] vote_of_3 [] ballot standing run standing-IsElected
      standing-IsElected_by_3
      (record { own = inr (inr (inl refl)); others = (λ h. inr (inl refl), tt) })
      (record { own = inr (inr (inl refl)); others = (λ h. inl refl, tt) }) refl

handle_candidate_vote-IsLeading_example :
    IsLeading standing.context.current_term
      (handle_candidate_vote json_like 60 [] 2 vote_of_2.response ballot standing).1
unfolding start_candidate_vote_module request_votes clear_votes
handle_candidate_vote-IsLeading_example =
    handle_candidate_vote-IsLeading json_like 60 [] 2 vote_of_2.response ballot standing refl refl
      refl refl refl (omega arith)
