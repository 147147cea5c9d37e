-- ===== src/Node/Election/Votes.antt =====
-- Who becomes a leader.
use raft_based_distributed_l.Node.Replication.{is_leader}
use raft_based_distributed_l.Node.State.{NodeConfig, become_follower, Node}
use raft_based_distributed_l.Node.Election.{
  is_candidate, counted_ballot, set_vote, start_candidate_vote_module, Ballot,
  handle_candidate_vote,
}
use raft_based_distributed_l.Storage.Codec.{Codec}
use raft_based_distributed_l.Prelude.{
  ◌∙◌, ◌<◌, refl, ◌*◌, ◌&&◌, ltb, subst, Bool-cases, ◌==◌, arith, length, ◌+◌, Text, ◌≡◌, List, ℕ,
  [], ◌∷◌, true, false, inl, inr,
}
use raft_based_distributed_l.Node.Election.Tally.{
  counted_ballot_saved, kept_IsTally, clear_votes-other, IsTally, counted_IsTally, Answer, is_peer,
  Voters, no_answer,
}

-- An election of a node with a configuration: it starts, and its peers answer. In between, the other
-- steps of the node change all of it but the configuration in any way.
pub data Election (codec : Codec) : NodeConfig → List Answer → Ballot → Type 0 where
  starts :
      (now : ℕ) (n : Node)
      → is_peer n.config.self_id n.peer_list ≡ false
      → Election codec n.config [] (start_candidate_vote_module now n).0
  answered :
      (now : ℕ) (names : List Text) (a : Answer) (answers : List Answer) (b : Ballot) (n : Node)
      → Election codec n.config answers b
      → Election codec n.config
          (a ∷ answers)
          (handle_candidate_vote codec now names a.peer a.response b n).0

-- The ballot after an answer.
handled-IsTally :
    (codec : Codec) (now : ℕ) (names : List Text) (a : Answer) (self : ℕ) (answers : List Answer)
    (voters : List ℕ) (b : Ballot) (n : Node)
    → IsTally self answers b voters
    → (voters' : List ℕ) × IsTally self
        (a ∷ answers)
        (handle_candidate_vote codec now names a.peer a.response b n).0
        voters'
unfolding handle_candidate_vote
handled-IsTally codec now names a self answers voters b n t =
    let same = kept_IsTally a self answers voters b t in
    elim (Bool-cases (is_candidate n.context.node_state)) [
      | inr c ↦ rw (c, handle_candidate_vote) (voters, same)
      | inl c ↦ elim (Bool-cases (ltb b.saved_current_term a.response.term)) [
        | inl h ↦ rw (c, h, handle_candidate_vote) (voters, same)
        | inr h ↦
            elim (Bool-cases (
              a.response.term == b.saved_current_term
              && n.context.current_term == b.saved_current_term)) [
                | inr m ↦ rw (c, h, m, handle_candidate_vote) (voters, same)
                | inl m ↦
                    let (voters', t') = counted_IsTally a self answers voters b (ground arith) t in
                    elim (Bool-cases (
                      ltb (length n.config.peer_id + 1)
                        (2 * (counted_ballot a.peer a.response b).collected_vote))) [
                          | inl e ↦ rw (c, h, m, e, handle_candidate_vote) (voters', t')
                          | inr e ↦ rw (c, h, m, e, handle_candidate_vote) (voters', t')
                        ]
              ]
      ]
    ]

start-IsTally :
    (now : ℕ) (n : Node)
    → is_peer n.config.self_id n.peer_list ≡ false
    → IsTally n.config.self_id [] (start_candidate_vote_module now n).0 []
unfolding start_candidate_vote_module
start-IsTally now n h = record {
  counts = no_answer;
  collected = refl;
  own =
      clear_votes-other n.peer_list n.config.self_id (set_vote n.config.self_id true (λ _. false)) h
        (ground arith);
  marked = λ p m. cc;
}

Election-IsTally :
    (codec : Codec) (config : NodeConfig) (answers : List Answer) (b : Ballot)
    → Election codec config answers b
    → (voters : List ℕ) × IsTally config.self_id answers b voters
Election-IsTally codec _ _ _ (starts now n h) = ([], start-IsTally now n h)
Election-IsTally codec _ _ _ (answered now names a answers b n e) =
    let (voters, t) = Election-IsTally codec n.config answers b e in
    handled-IsTally codec now names a n.config.self_id answers voters b n t

-- Take an election of a node that is none of its own peers: it starts, and peers answer in any
-- order and any number of times, while the other steps of the node change everything but its
-- configuration in any way. If an answer makes the node a leader that was none before, then the
-- candidate and the peers that have accepted in the current term of the node, each counted once,
-- are more than half of the cluster.
pub handle_candidate_vote-Majority :
    (codec : Codec) (now : ℕ) (names : List Text) (a : Answer) (answers : List Answer) (b : Ballot)
    (n : Node)
    → Election codec n.config answers b
    → is_leader n.context.node_state ≡ false
    → is_leader (handle_candidate_vote codec now names a.peer a.response b n).1.context.node_state
      ≡ true
    → (voters : List ℕ) × Voters n.config.self_id n.context.current_term (a ∷ answers) voters
      × (length n.config.peer_id + 1 < 2 * (1 + length voters))
unfolding handle_candidate_vote become_follower
handle_candidate_vote-Majority codec now names a answers b n e before after =
    let (voters, t) = Election-IsTally codec n.config answers b e in
    elim (Bool-cases (is_candidate n.context.node_state)) [
      | inr c ↦ let after' = rw (c, handle_candidate_vote) at after in cc
      | inl c ↦ elim (Bool-cases (ltb b.saved_current_term a.response.term)) [
        | inl h ↦ let after' = rw (c, h, handle_candidate_vote, become_follower) at after in cc
        | inr h ↦
            elim (Bool-cases (
              a.response.term == b.saved_current_term
              && n.context.current_term == b.saved_current_term)) [
                | inr m ↦ let after' = rw (c, h, m, handle_candidate_vote) at after in cc
                | inl m ↦
                    let (voters', t') =
                      counted_IsTally a n.config.self_id answers voters b (ground arith) t in
                    elim (Bool-cases (
                      ltb (length n.config.peer_id + 1)
                        (2 * (counted_ballot a.peer a.response b).collected_vote))) [
                          | inr k ↦
                              let after' = rw (c, h, m, k, handle_candidate_vote) at after in cc
                          | inl k ↦
                              let saved : (counted_ballot a.peer a.response b).saved_current_term
                                  ≡ n.context.current_term =
                                (let w : b.saved_current_term ≡ n.context.current_term =
                                    ground arith in
                                  counted_ballot_saved a.peer a.response b ∙ w) in
                              let size = t'.collected in
                              (
                                voters',
                                subst (λ x. Voters n.config.self_id x (a ∷ answers) voters') saved
                                    t'.counts,
                                ground arith,
                              )
                        ]
              ]
      ]
    ]
