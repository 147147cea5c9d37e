-- ===== src/Node/Election/Leaders.antt =====
-- What a node is when it has become a leader.
use raft_based_distributed_l.Node.Messages.{CandidateVotesResponse}
use raft_based_distributed_l.Node.Interchange.Expiry.Keeps.{scan_dlock_state_map-Keeps}
use raft_based_distributed_l.Node.Interchange.{commit, new_dlock_interchange, Leading}
use raft_based_distributed_l.Storage.Codec.{Codec}
use raft_based_distributed_l.Node.Replication.{is_leader}
use raft_based_distributed_l.Node.Interchange.Expiry.{init_from_dlock_state_map}
use raft_based_distributed_l.Node.State.{PeerNode, with_context, Node, commit_procedure}
use raft_based_distributed_l.Node.Election.{
  is_candidate, Ballot, count_vote, counted_ballot, reset_next_index, handle_candidate_vote,
  become_leader,
}
use raft_based_distributed_l.Prelude.{
  ◌&&◌, arith, ◌*◌, ap, ◌<◌, ◌+◌, ◌∙◌, length, if◌then◌else◌, ltb, refl, add64, ◌==◌, Bool-cases,
  ◌≡◌, Text, List, ℕ, [], ◌∷◌, true, false, inl, inr,
}
use raft_based_distributed_l.Node.Context.{NodeContext, trigger_ae_channel, NodeState, leader}

abbrev AllNext : ℕ → List PeerNode → Type 0
AllNext i [] = Unit {0}
AllNext i (p ∷ ps) = (p.next_index ≡ i) × AllNext i ps

-- It leads in the term, with the entries behind its log as the next ones for all peers.
pub record IsLeading (term : ℕ) (n : Node) : Type 0 where
  pub leads : is_leader n.context.node_state ≡ true
  pub term_is : n.context.current_term ≡ term
  pub nexts : AllNext (add64 n.log_entry_in_memory.maximum_index 1) n.peer_list

reset_next_index-AllNext : (i : ℕ) (ps : List PeerNode) → AllNext i (reset_next_index i ps)
unfolding reset_next_index
reset_next_index-AllNext i [] = tt
reset_next_index-AllNext i (p ∷ ps) = (refl, reset_next_index-AllNext i ps)

-- What an election decides on.
abbrev pub state_term_vote : Node → NodeState × ℕ × ℕ
state_term_vote n = (n.context.node_state, n.context.current_term, n.context.voted_peer)

trigger_keeps : (n : Node) → state_term_vote (with_context trigger_ae_channel n) ≡ state_term_vote n
unfolding trigger_ae_channel
trigger_keeps n =
    elim (n.context.append_entry_chan == 0)
      as (λ b.
        (let nc : NodeContext =
            if b then record n.context { append_entry_chan = 1 } else n.context in
          (nc.node_state, nc.current_term, nc.voted_peer))
        ≡ state_term_vote n) [ true ↦ refl | false ↦ refl ]

commit_procedure_keeps :
    (codec : Codec) (n : Node) → state_term_vote (commit_procedure codec n) ≡ state_term_vote n
unfolding commit_procedure
commit_procedure_keeps codec n =
    elim (Bool-cases (ltb n.context.last_applied_index n.context.commit_index)) [
      | inl q ↦ rw (q, commit_procedure) refl
      | inr q ↦ rw (q, commit_procedure) refl
    ]

-- The term and the vote stay.
pub become_leader_keeps :
    (codec : Codec) (now : ℕ) (names : List Text) (n : Node)
    → state_term_vote (become_leader codec now names n)
      ≡ (leader, n.context.current_term, n.context.voted_peer)
unfolding become_leader init_from_dlock_state_map
become_leader_keeps codec now names n =
    let leading = with_context (λ nc. record nc { node_state = NodeState.leader }) n in
    let s : Leading = record { interchange = new_dlock_interchange leading; node = leading } in
    scan_dlock_state_map-Keeps state_term_vote codec now names trigger_keeps (λ m lm. refl)
      (commit codec s).1
    ∙ commit_procedure_keeps codec leading

become_leader-IsLeading :
    (codec : Codec) (now : ℕ) (names : List Text) (n : Node)
    → IsLeading n.context.current_term (become_leader codec now names n)
unfolding become_leader
become_leader-IsLeading codec now names n =
    let leading = with_context (λ nc. record nc { node_state = NodeState.leader }) n in
    let s : Leading = record { interchange = new_dlock_interchange leading; node = leading } in
    let s' = (init_from_dlock_state_map codec now names s).1 in
    let kept = become_leader_keeps codec now names n in
    record {
      leads = ap (λ p. is_leader p.0) kept;
      term_is = ap (λ p. p.1) kept;
      nexts =
          reset_next_index-AllNext (add64 s'.node.log_entry_in_memory.maximum_index 1)
            s'.node.peer_list;
    }

-- If the node is still a candidate in the term that its election started in, a peer that has not
-- been counted yet accepts in that term, and with its vote more than half of the cluster is
-- collected, then the node leads afterwards, in the same term, whatever its scan of the locks
-- meets, and the next index of every peer is the one behind its log.
pub handle_candidate_vote-IsLeading :
    (codec : Codec) (now : ℕ) (names : List Text) (peer : ℕ) (response : CandidateVotesResponse)
    (b : Ballot) (n : Node)
    → is_candidate n.context.node_state ≡ true
    → n.context.current_term ≡ b.saved_current_term
    → response.term ≡ b.saved_current_term
    → response.accepted ≡ true
    → b.vote_map peer ≡ false
    → length n.config.peer_id + 1 < 2 * (b.collected_vote + 1)
    → IsLeading n.context.current_term (handle_candidate_vote codec now names peer response b n).1
unfolding handle_candidate_vote counted_ballot count_vote
handle_candidate_vote-IsLeading codec now names peer response b n c t r a f m =
    let low : ltb b.saved_current_term response.term ≡ false = ground arith in
    let same : (response.term == b.saved_current_term
          && n.context.current_term == b.saved_current_term)
        ≡ true =
      ground arith in
    let counted : counted_ballot peer response b ≡ count_vote peer b =
      rw (a, f, counted_ballot) refl in
    let enough : ltb (length n.config.peer_id + 1) (2 * (count_vote peer b).collected_vote) ≡ true =
      ground arith in
    rw (c, low, same, counted, enough, handle_candidate_vote)
      (become_leader-IsLeading codec now names n)
