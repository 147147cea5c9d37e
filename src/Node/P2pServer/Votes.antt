-- ===== src/Node/P2pServer/Votes.antt =====
-- Votes and terms.
use raft_based_distributed_l.Storage.LogEntry.{LogEntry}
use raft_based_distributed_l.Storage.LogMemory.{fetch_log_entry, LogMemory}
use raft_based_distributed_l.Node.Messages.{CandidateVotesRequest, CandidateVotesResponse}
use raft_based_distributed_l.Node.Context.{NodeContext}
use raft_based_distributed_l.Exec.{Error, ok_injective, p2p_dead, Result-cases, err, ok, Result}
use raft_based_distributed_l.Node.P2pServer.{
  is_follower, set_restart, up_to_date, last_entry_term, set_hop, vote_for, is_dead, may_vote,
  vote_in_term, vote_higher, candidate_votes_service,
}
use raft_based_distributed_l.Node.State.{Node, become_follower}
use raft_based_distributed_l.Prelude.{
  ◌≤◌, ap, ◌==◌, ◌∙◌, subst, refl, ltb→lt, ltb, inl, sym, inr, arith, Bool-cases, Bool, false, true,
  ◌≢◌, ◌⊎◌, ◌<◌, ℕ, ◌≡◌, List, [], ◌∷◌,
}

abbrev pub accepts : Result CandidateVotesResponse → Bool
accepts (ok response) = response.accepted
accepts (err e) = false

-- The term of the last entry of a log, 0 in an empty one.
abbrev pub IsLastTerm : LogMemory → ℕ → Type 0
IsLastTerm lm t =
    ((lm.maximum_index ≡ 0) × (t ≡ 0))
    ⊎ ((lm.maximum_index ≢ 0)
        × ((e : LogEntry) × (fetch_log_entry lm lm.maximum_index ≡ ok e) × (e.entry.term ≡ t)))

-- The log of the candidate ends in a higher term than the one of the node, or in the same term and
-- not before it.
abbrev pub IsUpToDate : CandidateVotesRequest → LogMemory → ℕ → Type 0
IsUpToDate request lm t =
    (t < request.prev_entry_term)
    ⊎ ((request.prev_entry_term ≡ t) × (lm.maximum_index ≤ request.prev_entry_index))

abbrev pub refusing : Node → Result CandidateVotesResponse
refusing n =
    ok (record { term = n.context.current_term; node_id = n.config.self_id; accepted = false })

abbrev pub accepting : CandidateVotesRequest → Node → CandidateVotesResponse
accepting request n = record { term = request.term; node_id = n.config.self_id; accepted = true }

-- Why a request is refused, and the answer to it.
pub data Refusal (request : CandidateVotesRequest) (n : Node)
    : Result CandidateVotesResponse → Type 0 where
  by_dead_node : is_dead n.context.node_state ≡ true → Refusal request n (err p2p_dead)
  by_term : request.term < n.context.current_term → Refusal request n (refusing n)
  by_vote :
      request.term ≡ n.context.current_term
      → n.context.voted_peer ≢ 0
      → n.context.voted_peer ≢ request.node_id
      → Refusal request n (refusing n)
  by_log :
      (last_term : ℕ)
      → request.term ≡ n.context.current_term
      → IsLastTerm n.log_entry_in_memory last_term
      → ¬ IsUpToDate request n.log_entry_in_memory last_term
      → Refusal request n (refusing n)
  by_missing_entry :
      (x : Error)
      → request.term ≡ n.context.current_term
      → n.log_entry_in_memory.maximum_index ≢ 0
      → fetch_log_entry n.log_entry_in_memory n.log_entry_in_memory.maximum_index ≡ err x
      → Refusal request n (err x)

-- The answers to a request for a vote, and what each leaves.
pub data Voted (now : ℕ) (request : CandidateVotesRequest) (n : Node)
    (r : Result CandidateVotesResponse × Node) : Type 0 where
  refused : accepts r.0 ≡ false → r.1 ≡ n → Refusal request n r.0 → Voted now request n r
  in_higher_term :
      n.context.current_term < request.term
      → r.0 ≡ ok (accepting request n)
      → r.1 ≡ vote_for request.node_id (become_follower now request.term (set_hop 0 n))
      → is_dead n.context.node_state ≡ false
      → (r.1.context.current_term ≡ request.term)
        × (r.1.context.voted_peer ≡ request.node_id)
        × (is_follower r.1.context.node_state ≡ true)
      → Voted now request n r
  in_same_term :
      (last_term : ℕ)
      → request.term ≡ n.context.current_term
      → (n.context.voted_peer ≡ 0) ⊎ (n.context.voted_peer ≡ request.node_id)
      → IsLastTerm n.log_entry_in_memory last_term
      → IsUpToDate request n.log_entry_in_memory last_term
      → r.0 ≡ ok (accepting request n)
      → r.1 ≡ set_restart now (vote_for request.node_id n)
      → is_dead n.context.node_state ≡ false
      → r.1.context.voted_peer ≡ request.node_id
      → Voted now request n r

last_entry_term-IsLastTerm : (lm : LogMemory) (t : ℕ) → last_entry_term lm ≡ ok t → IsLastTerm lm t
unfolding last_entry_term
last_entry_term-IsLastTerm lm t h = elim (Bool-cases (lm.maximum_index == 0)) [
  | inl z ↦ let h' = rw (z, last_entry_term) at h in inl (ground arith, sym (ok_injective 0 t h'))
  | inr z ↦ elim (Result-cases (fetch_log_entry lm lm.maximum_index)) [
    | inr (x, q) ↦ absurd (let h' = rw (z, q, last_entry_term) at h in cc)
    | inl (e, q) ↦
        let h' = rw (z, q, last_entry_term) at h in
        inr (λ w. ground arith, (e, q, ok_injective e.entry.term t h'))
  ]
]

abbrev error_of : Error → Result ℕ → Error
error_of y (ok _) = y
error_of y (err x) = x

last_entry_term-missing :
    (lm : LogMemory) (x : Error)
    → last_entry_term lm ≡ err x
    → (lm.maximum_index ≢ 0) × (fetch_log_entry lm lm.maximum_index ≡ err x)
unfolding last_entry_term
last_entry_term-missing lm x h = elim (Bool-cases (lm.maximum_index == 0)) [
  | inl z ↦ absurd (let h' = rw (z, last_entry_term) at h in cc)
  | inr z ↦ elim (Result-cases (fetch_log_entry lm lm.maximum_index)) [
    | inl (e, q) ↦ absurd (let h' = rw (z, q, last_entry_term) at h in cc)
    | inr (y, q) ↦
        let h' = rw (z, q, last_entry_term) at h in
        (λ w. ground arith, q ∙ ap (λ e. err e) (ap (error_of y) h'))
  ]
]

up_to_date-IsUpToDate :
    (request : CandidateVotesRequest) (lm : LogMemory) (t : ℕ)
    → up_to_date request lm t ≡ true
    → IsUpToDate request lm t
up_to_date-IsUpToDate request lm t h = ground arith

up_to_date-false :
    (request : CandidateVotesRequest) (lm : LogMemory) (t : ℕ)
    → up_to_date request lm t ≡ false
    → ¬ IsUpToDate request lm t
up_to_date-false request lm t h (inl l) = ground arith
up_to_date-false request lm t h (inr (e, l)) = ground arith

may_not_vote :
    (request : CandidateVotesRequest) (n : Node)
    → ltb n.context.current_term request.term ≡ false
    → may_vote request n.context ≡ false
    → Refusal request n (refusing n)
may_not_vote request n low h = elim (Bool-cases (request.term == n.context.current_term)) [
  | inr e ↦ by_term (ground arith)
  | inl e ↦ by_vote (ground arith) (λ z. ground arith) (λ z. ground arith)
]

may_vote_sound :
    (request : CandidateVotesRequest) (nc : NodeContext)
    → may_vote request nc ≡ true
    → (request.term ≡ nc.current_term) × ((nc.voted_peer ≡ 0) ⊎ (nc.voted_peer ≡ request.node_id))
may_vote_sound request nc h = (ground arith, ground arith)

-- Every answer to a request for a vote. It is refused, and nothing changes, in these cases only:
-- the node is dead, which is an error; the term is lower; in the same term the node has voted for
-- another candidate, or the log of the candidate ends in a lower term than the one of the node,
-- or in the same term before it; or the last entry of the node cannot be fetched, which is an
-- error. It is granted in a higher term, whatever the log of the candidate, and the node becomes
-- a follower in that term with its vote written down; and it is granted in the own term of a node
-- that has voted for nobody or for the same candidate, to a candidate whose log is at least as up
-- to date, and the vote is written down.
pub candidate_votes_service-Voted :
    (now : ℕ) (request : CandidateVotesRequest) (n : Node)
    → Voted now request n (candidate_votes_service now request n)
unfolding candidate_votes_service vote_higher vote_in_term
candidate_votes_service-Voted now request n = elim (Bool-cases (is_dead n.context.node_state)) [
  | inl d ↦ rw (d, candidate_votes_service) (refused refl refl (by_dead_node d))
  | inr d ↦ elim (Bool-cases (ltb n.context.current_term request.term)) [
    | inl h ↦
        rw (d, h, candidate_votes_service)
          (in_higher_term (ltb→lt _ _ h) refl refl d (refl, refl, refl))
    | inr h ↦ elim (Bool-cases (may_vote request n.context)) [
      | inr m ↦
          rw (d, h, m, candidate_votes_service) (refused refl refl (may_not_vote request n h m))
      | inl m ↦
          let (same, free) = may_vote_sound request n.context m in
          elim (Result-cases (last_entry_term n.log_entry_in_memory)) [
            | inr (x, l) ↦
                let (there, missing) = last_entry_term-missing n.log_entry_in_memory x l in
                rw (d, h, m, l, candidate_votes_service, vote_in_term)
                  (refused refl refl (by_missing_entry x same there missing))
            | inl (last_term, l) ↦
                let last = last_entry_term-IsLastTerm n.log_entry_in_memory last_term l in
                elim (Bool-cases (up_to_date request n.log_entry_in_memory last_term)) [
                  | inr u ↦
                      rw (d, h, m, l, u, candidate_votes_service, vote_in_term)
                        (refused refl refl (
                          by_log last_term same last
                            (up_to_date-false request n.log_entry_in_memory last_term u)))
                  | inl u ↦
                      rw (d, h, m, l, u, candidate_votes_service, vote_in_term)
                        (in_same_term last_term same free last
                          (up_to_date-IsUpToDate request n.log_entry_in_memory last_term u)
                          (ap
                            (λ t.
                              ok (record { term = t; node_id = n.config.self_id; accepted = true }))
                            (sym same))
                          refl d refl)
                ]
          ]
    ]
  ]
]

-- The node votes for `peer` or for nobody in `term`, now and later.
abbrev pub Bound : ℕ → ℕ → Node → Type 0
Bound term peer n =
    (term < n.context.current_term)
    ⊎ ((n.context.current_term ≡ term) × (n.context.voted_peer ≡ peer))

pub Bound-granted :
    (now : ℕ) (request : CandidateVotesRequest) (n : Node)
    (r : Result CandidateVotesResponse × Node)
    → Voted now request n r
    → accepts r.0 ≡ true
    → Bound request.term request.node_id r.1
unfolding become_follower
Bound-granted now request n r (refused x s w) h = cc
Bound-granted now request n r (in_higher_term t x s d w) h = rw s (inr (refl, refl))
Bound-granted now request n r (in_same_term l t f q u x s d w) h = rw s (inr (sym t, refl))

higher-Bound :
    (now term peer : ℕ) (request : CandidateVotesRequest) (n : Node)
    → n.context.current_term < request.term
    → Bound term peer n
    → Bound term peer (vote_for request.node_id (become_follower now request.term (set_hop 0 n)))
unfolding become_follower
higher-Bound now term peer request n t (inl b) = inl (omega arith)
higher-Bound now term peer request n t (inr b) = inl (omega (arith, b.0))

same-Bound :
    (now term peer : ℕ) (request : CandidateVotesRequest) (n : Node)
    → request.term ≡ n.context.current_term
    → (n.context.voted_peer ≡ 0) ⊎ (n.context.voted_peer ≡ request.node_id)
    → peer ≢ 0
    → Bound term peer n
    → Bound term peer (set_restart now (vote_for request.node_id n))
same-Bound now term peer request n t f nz (inl b) = inl b
same-Bound now term peer request n t (inl f) nz (inr b) = absurd (nz (sym b.1 ∙ f))
same-Bound now term peer request n t (inr f) nz (inr b) = inr (b.0, sym f ∙ b.1)

pub Bound-kept :
    (now term peer : ℕ) (request : CandidateVotesRequest) (n : Node)
    (r : Result CandidateVotesResponse × Node)
    → Voted now request n r
    → peer ≢ 0
    → Bound term peer n
    → Bound term peer r.1
Bound-kept now term peer request n r (refused x s w) nz b = subst (Bound term peer) (sym s) b
Bound-kept now term peer request n r (in_higher_term t x s d w) nz b =
    subst (Bound term peer) (sym s) (higher-Bound now term peer request n t b)
Bound-kept now term peer request n r (in_same_term l t f q u x s d w) nz b =
    subst (Bound term peer) (sym s) (same-Bound now term peer request n t f nz b)

pub Bound-refused :
    (now peer : ℕ) (request : CandidateVotesRequest) (n : Node)
    (r : Result CandidateVotesResponse × Node)
    → Voted now request n r
    → peer ≢ 0
    → request.node_id ≢ peer
    → Bound request.term peer n
    → accepts r.0 ≡ false
Bound-refused now peer request n r (refused x s w) nz ne b = x
Bound-refused now peer request n r (in_higher_term t x s d w) nz ne (inl b) = absurd (omega arith)
Bound-refused now peer request n r (in_higher_term t x s d w) nz ne (inr b) =
    absurd (omega (arith, b.0))
Bound-refused now peer request n r (in_same_term l t f q u x s d w) nz ne (inl b) =
    absurd (omega arith)
Bound-refused now peer request n r (in_same_term l t (inl f) q u x s d w) nz ne (inr b) =
    absurd (nz (sym b.1 ∙ f))
Bound-refused now peer request n r (in_same_term l t (inr f) q u x s d w) nz ne (inr b) =
    absurd (ne (sym f ∙ b.1))

-- Requests for votes, each with the time at which it is served.
unfoldable pub serve_votes : List (ℕ × CandidateVotesRequest) → Node → Node
serve_votes [] n = n
serve_votes ((now, request) ∷ requests) n =
    serve_votes requests (candidate_votes_service now request n).1

serve_votes-Bound :
    (requests : List (ℕ × CandidateVotesRequest)) (term peer : ℕ) (n : Node)
    → peer ≢ 0
    → Bound term peer n
    → Bound term peer (serve_votes requests n)
unfolding serve_votes
serve_votes-Bound [] term peer n nz b = b
serve_votes-Bound ((now, request) ∷ requests) term peer n nz b =
    serve_votes-Bound requests term peer _ nz
      (Bound-kept now term peer request n _ (candidate_votes_service-Voted now request n) nz b)

-- One vote per term, as long as only requests for votes are served: after a vote for a candidate
-- with a nonzero id, and any requests for votes in between, a request of another candidate in the
-- same term is refused.
pub one_vote_per_term :
    (now later : ℕ) (first second : CandidateVotesRequest) (n : Node)
    (between : List (ℕ × CandidateVotesRequest))
    → first.node_id ≢ 0
    → accepts (candidate_votes_service now first n).0 ≡ true
    → second.term ≡ first.term
    → second.node_id ≢ first.node_id
    → accepts
        (candidate_votes_service later second
          (serve_votes between (candidate_votes_service now first n).1)).0
      ≡ false
one_vote_per_term now later first second n between nz granted same ne =
    let bound =
      serve_votes-Bound between first.term first.node_id _ nz
        (Bound-granted now first n _ (candidate_votes_service-Voted now first n) granted) in
    Bound-refused later first.node_id second _ _ (candidate_votes_service-Voted later second _) nz
      ne
      (subst
        (λ t. Bound t first.node_id (serve_votes between (candidate_votes_service now first n).1))
        (sym same) bound)
