-- ===== src/Node/Election.antt =====
-- node/node.go: the start of a node, the detector of elections, the votes that a candidate collects,
-- and the step to a leader. What a goroutine does between two calls that wait is a function.
pub mod Tally
pub mod Votes
pub mod Quorums
pub mod Leaders
pub mod Runs
pub mod Grants
pub mod Safety
use raft_based_distributed_l.Node.Messages.{CandidateVotesRequest, CandidateVotesResponse}
use raft_based_distributed_l.Node.Interchange.{new_dlock_interchange}
use raft_based_distributed_l.Node.Interchange.Expiry.{init_from_dlock_state_map}
use raft_based_distributed_l.Node.Replication.{is_leader}
use raft_based_distributed_l.Node.P2pServer.{
  set_hop, last_entry_term, is_follower, is_dead, set_restart,
}
use raft_based_distributed_l.Node.State.{
  send_append_entries_to_all, heart_beat, start_node_server, become_follower,
  back_up_log_memory_to_disk, release_expired_dlock_periodically, commit_to_state_map,
  start_cli_server, run_election_detector, request_vote, spawn, with_context, PeerNode, Node,
}
use raft_based_distributed_l.Storage.Codec.{Codec}
use raft_based_distributed_l.Prelude.{
  ◌*◌, length, sub64, ltb_i64, ltb, ◌&&◌, not, ◌==◌, Text, ◌+◌, Option, if◌then◌else◌, add64, Bool,
  ℕ, List, none, some, [], ◌∷◌, true, false,
}
use raft_based_distributed_l.Exec.{ok, err}
use raft_based_distributed_l.Node.Context.{NodeState, dead, leader, candidate, follower}

unfoldable pub init_raft_consensus_module : Node → Node
init_raft_consensus_module n =
    let n' =
      if is_dead n.context.node_state
      then with_context (λ nc. record nc { node_state = NodeState.follower }) n
      else n in
    spawn start_cli_server (
      spawn commit_to_state_map (
        spawn back_up_log_memory_to_disk
          (spawn run_election_detector (spawn start_node_server n'))))

-- The variables that the goroutines of one election share.
pub record Ballot : Type 0 where
  pub saved_current_term : ℕ
  pub collected_vote : ℕ
  pub vote_map : ℕ → Bool

abbrev pub set_vote : ℕ → Bool → (ℕ → Bool) → ℕ → Bool
set_vote peer v f i = if peer == i then v else f i

unfoldable pub clear_votes : List PeerNode → (ℕ → Bool) → ℕ → Bool
clear_votes [] f = f
clear_votes (p ∷ ps) f = clear_votes ps (set_vote p.peer_id false f)

unfoldable pub request_votes : List PeerNode → Node → Node
request_votes [] n = n
request_votes (p ∷ ps) n = request_votes ps (spawn (request_vote p.peer_id) n)

unfoldable pub start_candidate_vote_module : ℕ → Node → Ballot × Node
start_candidate_vote_module now n =
    let term = add64 n.context.current_term 1 in
    let n' =
      with_context
        (λ nc. record nc {
          node_state = NodeState.candidate;
          current_term = term;
          voted_peer = n.config.self_id;
          election_restart_time = now;
          hop_to_current_leader_id = 0;
        })
        n in
    (
      record {
        saved_current_term = term;
        collected_vote = 1;
        vote_map = clear_votes n.peer_list (set_vote n.config.self_id true (λ _. false));
      },
      spawn run_election_detector (request_votes n.peer_list n'),
    )

abbrev pub is_candidate : NodeState → Bool
is_candidate candidate = true
is_candidate _ = false

-- What a goroutine sends for its peer, if anything.
unfoldable pub candidate_votes_request : Ballot → Node → Option CandidateVotesRequest
candidate_votes_request b n =
    if not (is_candidate n.context.node_state) && not (is_follower n.context.node_state)
    then none
    else if ltb b.saved_current_term n.context.current_term
    then none
    else elim (last_entry_term n.log_entry_in_memory) [
      | err _ ↦ none
      | ok term ↦ some (record {
        term = b.saved_current_term;
        node_id = n.config.self_id;
        prev_entry_index = n.log_entry_in_memory.maximum_index;
        prev_entry_term = term;
      })
    ]

unfoldable pub reset_next_index : ℕ → List PeerNode → List PeerNode
reset_next_index i [] = []
reset_next_index i (p ∷ ps) = record p { next_index = i } ∷ reset_next_index i ps

unfoldable pub count_vote : ℕ → Ballot → Ballot
count_vote peer b = record b {
  collected_vote = b.collected_vote + 1;
  vote_map = set_vote peer true b.vote_map;
}

-- A vote counts once for each peer.
unfoldable pub counted_ballot : ℕ → CandidateVotesResponse → Ballot → Ballot
counted_ballot peer response b =
    if response.accepted && not (b.vote_map peer) then count_vote peer b else b

module _ (codec : Codec) where
  -- An error of the scan is only logged; `names` is the order of its loop.
  unfoldable pub become_leader : ℕ → List Text → Node → Node
  become_leader now names n =
      let leading = with_context (λ nc. record nc { node_state = NodeState.leader }) n in
      let s =
        (init_from_dlock_state_map codec now names
          (record { interchange = new_dlock_interchange leading; node = leading })).1 in
      let n' =
        spawn release_expired_dlock_periodically
          (record s.node { dlock_interchange = some s.interchange }) in
      spawn heart_beat (record n' {
        peer_list = reset_next_index (add64 n'.log_entry_in_memory.maximum_index 1) n'.peer_list;
      })

  -- The answer of a peer; an error of the call is only logged.
  unfoldable pub handle_candidate_vote :
      ℕ → List Text → ℕ → CandidateVotesResponse → Ballot → Node → Ballot × Node
  handle_candidate_vote now names peer response b n =
      let counted = counted_ballot peer response b in
      if not (is_candidate n.context.node_state)
      then (b, n)
      else if ltb b.saved_current_term response.term
      then (b, become_follower now response.term (set_hop 0 n))
      else if response.term == b.saved_current_term
          && n.context.current_term == b.saved_current_term
      then if ltb (length n.config.peer_id + 1) (2 * counted.collected_vote)
        then (counted, become_leader now names n)
        else (counted, n)
      else (b, n)

-- RunElectionDetectorModule before its loop, with the term that it starts in.
unfoldable pub start_election_detector : ℕ → Node → ℕ × Node
start_election_detector now n = (n.context.current_term, set_restart now n)

-- What a tick of the loop does: it goes on, ends, or starts an election.
pub data Tick : Type 0 where
  goes_on ends : Tick
  votes : Ballot → Tick

-- The time since the restart is an int64.
unfoldable pub election_detector_tick : ℕ → ℕ → ℕ → Node → Tick × Node
election_detector_tick now election_timeout start_election_term n =
    if not (is_candidate n.context.node_state) && not (is_follower n.context.node_state)
    then (ends, n)
    else if ltb start_election_term n.context.current_term
    then (ends, n)
    else if ltb_i64 (sub64 now n.context.election_restart_time) election_timeout
    then (goes_on, n)
    else let (b, n') = start_candidate_vote_module now n in (votes b, n')

-- What wakes the leader's loop; the message of the channel is taken.
pub data Wake : Type 0 where
  by_timer by_append_entry_chan : Wake

abbrev pub take_message : Wake → Node → Node
take_message by_timer n = n
take_message by_append_entry_chan n = with_context (λ nc. record nc { append_entry_chan = 0 }) n

-- A round of the loop: it sends to all peers and goes on, or ends.
unfoldable pub heart_beat_round : Wake → Node → Bool × Node
heart_beat_round wake n =
    let n' = take_message wake n in
    if is_leader n'.context.node_state
    then (true, spawn send_append_entries_to_all n')
    else (false, n')
