-- ===== src/Node/Election/Runs.antt =====
-- The runs of a cluster, and the votes that its nodes give in them.
use raft_based_distributed_l.Node.Messages.{
  CandidateVotesRequest, AppendEntriesRequest, AppendEntriesResponse,
}
use raft_based_distributed_l.Node.Replication.{Sent, handle_append_response}
use raft_based_distributed_l.Node.Election.Tally.{Answer}
use raft_based_distributed_l.Node.Election.{
  handle_candidate_vote, Ballot, start_candidate_vote_module,
}
use raft_based_distributed_l.Node.P2pServer.{
  is_follower, append_entries_service, candidate_votes_service,
}
use raft_based_distributed_l.Node.P2pServer.Votes.{accepts}
use raft_based_distributed_l.Storage.Codec.{Codec}
use raft_based_distributed_l.Node.P2pServer.Terms.{GoesOn}
use raft_based_distributed_l.Node.State.{Node}
use raft_based_distributed_l.Prelude.{
  ◌≤◌, Text, ◌^◌, ◌+◌, ◌==◌, ◌⊎◌, ◌≡◌, if◌then◌else◌, ◌≢◌, ◌<◌, [], ◌∷◌, true, false, List, ℕ,
}

-- A vote that a node has given.
pub record Grant : Type 0 where
  pub voter : ℕ
  pub term : ℕ
  pub candidate : ℕ

abbrev pub Given : Grant → List Grant → Type 0
Given g [] = ⊥
Given g (h ∷ gs) = (g ≡ h) ⊎ Given g gs

abbrev pub Cluster : Type 0
Cluster = ℕ → Node

abbrev pub at_node : ℕ → Node → Cluster → Cluster
at_node i n c j = if i == j then n else c j

-- The steps of a cluster, with the votes that its nodes have given.
pub data Steps (codec : Codec) : List Grant → Cluster → Type 0 where
  begins : (c : Cluster) → Steps codec [] c
  votes :
      (i now : ℕ) (request : CandidateVotesRequest) (gs : List Grant) (c : Cluster)
      → Steps codec gs c
      → request.node_id ≢ 0
      → accepts (candidate_votes_service now request (c i)).0 ≡ true
      → Steps codec
          (record { voter = i; term = request.term; candidate = request.node_id } ∷ gs)
          (at_node i (candidate_votes_service now request (c i)).1 c)
  refuses :
      (i now : ℕ) (request : CandidateVotesRequest) (gs : List Grant) (c : Cluster)
      → Steps codec gs c
      → accepts (candidate_votes_service now request (c i)).0 ≡ false
      → Steps codec gs (at_node i (candidate_votes_service now request (c i)).1 c)
  stands :
      (i now : ℕ) (gs : List Grant) (c : Cluster)
      → Steps codec gs c
      → (c i).config.self_id ≡ i
      → i ≢ 0
      → (c i).context.current_term + 1 < 2 ^ 64
      → Steps codec
          (record { voter = i; term = (c i).context.current_term + 1; candidate = i } ∷ gs)
          (at_node i (start_candidate_vote_module now (c i)).1 c)
  handles :
      (i now : ℕ) (names : List Text) (a : Answer) (b : Ballot) (gs : List Grant) (c : Cluster)
      → Steps codec gs c
      → (a.response.term ≤ b.saved_current_term) ⊎ ((c i).context.current_term < a.response.term)
      → Steps codec gs
          (at_node i (handle_candidate_vote codec now names a.peer a.response b (c i)).1 c)
  appends :
      (i now : ℕ) (request : AppendEntriesRequest) (gs : List Grant) (c : Cluster)
      → Steps codec gs c
      → (is_follower (c i).context.node_state ≡ true) ⊎ (request.term ≢ (c i).context.current_term)
      → Steps codec gs (at_node i (append_entries_service codec now request (c i)).1 c)
  hears :
      (i now peer_id : ℕ) (sent : Sent) (response : AppendEntriesResponse) (gs : List Grant)
      (c : Cluster)
      → Steps codec gs c
      → (response.term ≤ sent.start_current_term) ⊎ ((c i).context.current_term < response.term)
      → Steps codec gs (at_node i (handle_append_response now peer_id sent response (c i)) c)
  goes_on :
      (i : ℕ) (n : Node) (gs : List Grant) (c : Cluster)
      → Steps codec gs c
      → GoesOn (c i) n
      → Steps codec gs (at_node i n c)
