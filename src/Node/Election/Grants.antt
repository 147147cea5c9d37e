-- ===== src/Node/Election/Grants.antt =====
-- In a run of a cluster a node gives one vote in a term.
use raft_based_distributed_l.Node.Messages.{CandidateVotesRequest, CandidateVotesResponse}
use raft_based_distributed_l.Node.Election.Runs.{
  Steps, Given, at_node, Grant, Cluster, begins, votes, refuses, stands, handles, appends, hears,
  goes_on,
}
use raft_based_distributed_l.Node.Replication.Terms.{handle_append_response-GoesOn}
use raft_based_distributed_l.Node.Replication.{handle_append_response}
use raft_based_distributed_l.Node.Election.Leaders.{become_leader_keeps}
use raft_based_distributed_l.Exec.{Result}
use raft_based_distributed_l.Node.Election.{
  counted_ballot, request_vote, is_candidate, request_votes, handle_candidate_vote, Ballot,
  start_candidate_vote_module,
}
use raft_based_distributed_l.Node.P2pServer.{append_entries_service}
use raft_based_distributed_l.Node.P2pServer.Votes.{
  Bound-granted, Bound-kept, candidate_votes_service-Voted, Bound-refused, Voted, accepts, Bound,
}
use raft_based_distributed_l.Storage.Codec.{Codec}
use raft_based_distributed_l.Node.P2pServer.Terms.{append_entries_service-GoesOn, GoesOn}
use raft_based_distributed_l.Node.State.{spawn, PeerNode, become_follower, Node}
use raft_based_distributed_l.Prelude.{
  ◌*◌, length, ◌&&◌, ltb, ap, add64, ◌≤◌, Text, ◌^◌, ◌+◌, sym, subst, Bool-cases, ◌∙◌, ◌==◌, ◌⊎◌,
  arith, ◌≡◌, ◌≢◌, ◌<◌, [], ◌∷◌, true, inl, inr, List, ℕ, refl,
}

-- Votes for the same candidate, where they are of one node in one term.
abbrev pub AgreeOn : Grant → Grant → Type 0
AgreeOn g h = g.voter ≡ h.voter → g.term ≡ h.term → g.candidate ≡ h.candidate

pub record IsSound (gs : List Grant) (c : Cluster) : Type 0 where
  pub bound : (g : Grant) → Given g gs → Bound g.term g.candidate (c g.voter)
  pub named : (g : Grant) → Given g gs → g.candidate ≢ 0
  pub agree : (g h : Grant) → Given g gs → Given h gs → AgreeOn g h

-- What binds the old node binds the new one.
abbrev Binding : Node → Node → Type 0
Binding n n' = (term peer : ℕ) → peer ≢ 0 → Bound term peer n → Bound term peer n'

GoesOn-Binding : (n n' : Node) → GoesOn n n' → Binding n n'
GoesOn-Binding n n' (inl h) term peer nz (inl b) = inl (omega arith)
GoesOn-Binding n n' (inl h) term peer nz (inr b) = inl (omega (arith, b.0))
GoesOn-Binding n n' (inr h) term peer nz (inl b) = inl (omega (arith, h.0))
GoesOn-Binding n n' (inr h) term peer nz (inr b) = inr (h.0 ∙ b.0, h.1 ∙ b.1)

at_node-Bound :
    (i : ℕ) (n : Node) (c : Cluster) (g : Grant)
    → Binding (c i) n
    → g.candidate ≢ 0
    → Bound g.term g.candidate (c g.voter)
    → Bound g.term g.candidate (at_node i n c g.voter)
at_node-Bound i n c g k nz b = elim (Bool-cases (i == g.voter)) [
  | inr e ↦ rw (e) b
  | inl e ↦
      let same : g.voter ≡ i = ground arith in
      let b' = subst (λ v. Bound g.term g.candidate (c v)) same b in
      rw (e) (k g.term g.candidate nz b')
]

step-IsSound :
    (i : ℕ) (n : Node) (gs : List Grant) (c : Cluster)
    → Binding (c i) n
    → IsSound gs c
    → IsSound gs (at_node i n c)
step-IsSound i n gs c k s = record {
  bound = λ g m. at_node-Bound i n c g k (s.named g m) (s.bound g m);
  named = s.named;
  agree = s.agree;
}

-- Votes of a node in the term of the new one are for the same candidate.
grant-IsSound :
    (i term candidate : ℕ) (n : Node) (gs : List Grant) (c : Cluster)
    → Binding (c i) n
    → candidate ≢ 0
    → Bound term candidate n
    → ((peer : ℕ) → peer ≢ 0 → Bound term peer (c i) → peer ≡ candidate)
    → IsSound gs c
    → IsSound (record { voter = i; term = term; candidate = candidate } ∷ gs) (at_node i n c)
grant-IsSound i term candidate n gs c k nz b free s =
    let new : Grant = record { voter = i; term = term; candidate = candidate } in
    let here : Bound term candidate (at_node i n c i) =
      (let e : (i == i) ≡ true = ground arith in rw (e) b) in
    let old : (h : Grant) → Given h gs → h.voter ≡ i → h.term ≡ term → h.candidate ≡ candidate =
      λ h m v t. free h.candidate (s.named h m) (
        subst (λ x. Bound x h.candidate (c i)) t
          (subst (λ x. Bound h.term h.candidate (c x)) v (s.bound h m))) in
    record {
      bound = λ g m. elim m as (λ _. Bound g.term g.candidate (at_node i n c g.voter)) [
        | inl e ↦ subst (λ x. Bound x.term x.candidate (at_node i n c x.voter)) (sym e) here
        | inr m' ↦ at_node-Bound i n c g k (s.named g m') (s.bound g m')
      ];
      named = λ g m. elim m as (λ _. g.candidate ≢ 0) [
        | inl e ↦ subst (λ x. x.candidate ≢ 0) (sym e) nz
        | inr m' ↦ s.named g m'
      ];
      agree = λ g h m l. elim m as (λ _. AgreeOn g h) [
        | inl e ↦
            subst (λ x. AgreeOn x h) (sym e)
              (elim l as (λ _. AgreeOn new h) [
                | inl e' ↦ subst (AgreeOn new) (sym e') (λ v t. refl)
                | inr l' ↦ λ v t. sym (old h l' (sym v) (sym t))
              ])
        | inr m' ↦ elim l as (λ _. AgreeOn g h) [
          | inl e' ↦ subst (AgreeOn g) (sym e') (old g m')
          | inr l' ↦ s.agree g h m' l'
        ]
      ];
    }

-- A vote of the term that the node is bound in is for the candidate of the request.
Voted-free :
    (now peer : ℕ) (request : CandidateVotesRequest) (n : Node)
    (r : Result CandidateVotesResponse × Node)
    → Voted now request n r
    → accepts r.0 ≡ true
    → peer ≢ 0
    → Bound request.term peer n
    → peer ≡ request.node_id
Voted-free now peer request n r v h nz b = elim (Bool-cases (request.node_id == peer)) [
  | inl e ↦ ground arith
  | inr e ↦
      let no = Bound-refused now peer request n r v nz (λ z. let w = e in ground arith) b in cc
]

request_votes_context : (ps : List PeerNode) (n : Node) → (request_votes ps n).context ≡ n.context
unfolding request_votes
request_votes_context [] n = refl
request_votes_context (p ∷ ps) n = request_votes_context ps (spawn (request_vote p.peer_id) n)

-- A candidate votes for itself in the next term.
stands-Bound :
    (now : ℕ) (n : Node)
    → n.context.current_term + 1 < 2 ^ 64
    → Bound (n.context.current_term + 1) n.config.self_id (start_candidate_vote_module now n).1
unfolding start_candidate_vote_module
stands-Bound now n h =
    let next : add64 n.context.current_term 1 ≡ n.context.current_term + 1 = omega arith in
    let kept = request_votes_context n.peer_list _ in
    inr (ap (λ nc. nc.current_term) kept ∙ next, ap (λ nc. nc.voted_peer) kept)

stands-GoesOn :
    (now : ℕ) (n : Node)
    → n.context.current_term + 1 < 2 ^ 64
    → GoesOn n (start_candidate_vote_module now n).1
stands-GoesOn now n h = elim (stands-Bound now n h) [
  | inl b ↦ inl (omega arith)
  | inr b ↦ inl (omega (arith, b.0))
]

-- An answer in time.
handles-GoesOn :
    (codec : Codec) (now : ℕ) (names : List Text) (peer : ℕ) (response : CandidateVotesResponse)
    (b : Ballot) (n : Node)
    → (response.term ≤ b.saved_current_term) ⊎ (n.context.current_term < response.term)
    → GoesOn n (handle_candidate_vote codec now names peer response b n).1
unfolding handle_candidate_vote become_follower
handles-GoesOn codec now names peer response b n in_time =
    let led = become_leader_keeps codec now names n in
    elim (Bool-cases (is_candidate n.context.node_state)) [
      | inr c ↦ rw (c, handle_candidate_vote) (inr (refl, refl))
      | inl c ↦ elim (Bool-cases (ltb b.saved_current_term response.term)) [
        | inl h ↦ rw (c, h, handle_candidate_vote, become_follower) (inl (ground arith))
        | inr h ↦
            elim (Bool-cases (
              response.term == b.saved_current_term
              && n.context.current_term == b.saved_current_term)) [
                | inr m ↦ rw (c, h, m, handle_candidate_vote) (inr (refl, refl))
                | inl m ↦
                    elim (Bool-cases (
                      ltb (length n.config.peer_id + 1)
                        (2 * (counted_ballot peer response b).collected_vote))) [
                          | inr e ↦ rw (c, h, m, e, handle_candidate_vote) (inr (refl, refl))
                          | inl e ↦
                              rw (c, h, m, e, handle_candidate_vote)
                                (inr (ap (λ p. p.1) led, ap (λ p. p.2) led))
                        ]
              ]
      ]
    ]

pub Steps-IsSound :
    (codec : Codec) (gs : List Grant) (c : Cluster) → Steps codec gs c → IsSound gs c
Steps-IsSound codec _ _ (begins c) = record {
  bound = λ g m. absurd m;
  named = λ g m. absurd m;
  agree = λ g h m. absurd m;
}
Steps-IsSound codec _ _ (votes i now request gs c steps nz h) =
    let v = candidate_votes_service-Voted now request (c i) in
    grant-IsSound i request.term request.node_id _ gs c
      (λ term peer. Bound-kept now term peer request (c i) _ v) nz
      (Bound-granted now request (c i) _ v h) (λ peer. Voted-free now peer request (c i) _ v h)
      (Steps-IsSound codec gs c steps)
Steps-IsSound codec _ _ (refuses i now request gs c steps h) =
    let v = candidate_votes_service-Voted now request (c i) in
    step-IsSound i _ gs c (λ term peer. Bound-kept now term peer request (c i) _ v)
      (Steps-IsSound codec gs c steps)
Steps-IsSound codec _ _ (stands i now gs c steps e nz h) =
    grant-IsSound i ((c i).context.current_term + 1) i (start_candidate_vote_module now (c i)).1 gs
      c (GoesOn-Binding (c i) (start_candidate_vote_module now (c i)).1 (stands-GoesOn now (c i) h))
      nz
      (subst
        (λ p. Bound ((c i).context.current_term + 1) p (start_candidate_vote_module now (c i)).1) e
        (stands-Bound now (c i) h))
      (λ peer z b. elim b as (λ _. peer ≡ i) [
        | inl x ↦ absurd (omega arith)
        | inr x ↦ absurd (omega (arith, x.0))
      ])
      (Steps-IsSound codec gs c steps)
Steps-IsSound codec _ _ (handles i now names a b gs c steps h) =
    step-IsSound i (handle_candidate_vote codec now names a.peer a.response b (c i)).1 gs c
      (GoesOn-Binding (c i) (handle_candidate_vote codec now names a.peer a.response b (c i)).1
        (handles-GoesOn codec now names a.peer a.response b (c i) h))
      (Steps-IsSound codec gs c steps)
Steps-IsSound codec _ _ (appends i now request gs c steps h) =
    step-IsSound i (append_entries_service codec now request (c i)).1 gs c
      (GoesOn-Binding (c i) (append_entries_service codec now request (c i)).1
        (append_entries_service-GoesOn codec now request (c i) h))
      (Steps-IsSound codec gs c steps)
Steps-IsSound codec _ _ (hears i now peer_id sent response gs c steps h) =
    step-IsSound i (handle_append_response now peer_id sent response (c i)) gs c
      (GoesOn-Binding (c i) (handle_append_response now peer_id sent response (c i))
        (handle_append_response-GoesOn now peer_id sent response (c i) h))
      (Steps-IsSound codec gs c steps)
Steps-IsSound codec _ _ (goes_on i n gs c steps h) =
    step-IsSound i n gs c (GoesOn-Binding (c i) n h) (Steps-IsSound codec gs c steps)
