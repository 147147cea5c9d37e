-- ===== src/Node/Election/Tally.antt =====
-- The votes that a candidate has counted.
use raft_based_distributed_l.Node.Messages.{CandidateVotesResponse}
use raft_based_distributed_l.Node.State.{PeerNode}
use raft_based_distributed_l.Node.Election.{
  count_vote, counted_ballot, set_vote, Ballot, clear_votes,
}
use raft_based_distributed_l.Prelude.{
  if◌then◌else◌, not, refl, ◌&&◌, subst, ◌||◌, Bool-cases, ◌==◌, arith, length, Bool, ◌≢◌, ◌+◌, ◌≡◌,
  List, ℕ, [], ◌∷◌, true, false, inl, inr,
}

abbrev pub is_in : ℕ → List ℕ → Bool
is_in p [] = false
is_in p (q ∷ qs) = q == p || is_in p qs

abbrev pub is_peer : ℕ → List PeerNode → Bool
is_peer id [] = false
is_peer id (p ∷ ps) = p.peer_id == id || is_peer id ps

-- The answer of a peer.
pub record Answer : Type 0 where
  pub peer : ℕ
  pub response : CandidateVotesResponse

-- The peers whose votes count, of the answers so far: each once, by an answer that accepts in the
-- term of the election, and not the candidate itself.
pub data Voters (self term : ℕ) : List Answer → List ℕ → Type 0 where
  no_answer : Voters self term [] []
  not_counted :
      (a : Answer) (answers : List Answer) (voters : List ℕ)
      → Voters self term answers voters
      → Voters self term (a ∷ answers) voters
  counted :
      (a : Answer) (answers : List Answer) (voters : List ℕ)
      → Voters self term answers voters
      → a.response.accepted ≡ true
      → a.response.term ≡ term
      → a.peer ≢ self
      → is_in a.peer voters ≡ false
      → Voters self term (a ∷ answers) (a.peer ∷ voters)

-- The votes of the candidate itself and of the voters.
pub record IsTally (self : ℕ) (answers : List Answer) (b : Ballot) (voters : List ℕ) : Type 0 where
  pub counts : Voters self b.saved_current_term answers voters
  pub collected : b.collected_vote ≡ 1 + length voters
  pub own : b.vote_map self ≡ true
  pub marked : (p : ℕ) → is_in p voters ≡ true → b.vote_map p ≡ true

pub clear_votes-other :
    (ps : List PeerNode) (self : ℕ) (f : ℕ → Bool)
    → is_peer self ps ≡ false
    → f self ≡ true
    → clear_votes ps f self ≡ true
unfolding clear_votes
clear_votes-other [] self f h k = k
clear_votes-other (p ∷ ps) self f h k =
    clear_votes-other ps self (set_vote p.peer_id false f) (ground arith) (ground arith)

pub kept_IsTally :
    (a : Answer) (self : ℕ) (answers : List Answer) (voters : List ℕ) (b : Ballot)
    → IsTally self answers b voters
    → IsTally self (a ∷ answers) b voters
kept_IsTally a self answers voters b t = record {
  counts = not_counted a answers voters t.counts;
  collected = t.collected;
  own = t.own;
  marked = t.marked;
}

pub counted_ballot_saved :
    (peer : ℕ) (response : CandidateVotesResponse) (b : Ballot)
    → (counted_ballot peer response b).saved_current_term ≡ b.saved_current_term
unfolding counted_ballot count_vote
counted_ballot_saved peer response b =
    elim (response.accepted && not (b.vote_map peer))
      as (λ x. (if x then count_vote peer b else b).saved_current_term ≡ b.saved_current_term) [
        | true ↦ refl
        | false ↦ refl
      ]

pub counted_IsTally :
    (a : Answer) (self : ℕ) (answers : List Answer) (voters : List ℕ) (b : Ballot)
    → a.response.term ≡ b.saved_current_term
    → IsTally self answers b voters
    → (voters' : List ℕ) × IsTally self (a ∷ answers) (counted_ballot a.peer a.response b) voters'
unfolding counted_ballot count_vote
counted_IsTally a self answers voters b e t = elim (Bool-cases a.response.accepted) [
  | inr x ↦
      let c : b ≡ counted_ballot a.peer a.response b = rw (x, counted_ballot) refl in
      (
        voters,
        subst (λ d. IsTally self (a ∷ answers) d voters) c (kept_IsTally a self answers voters b t),
      )
  | inl x ↦ elim (Bool-cases (b.vote_map a.peer)) [
    | inl y ↦
        let c : b ≡ counted_ballot a.peer a.response b = rw (x, y, counted_ballot) refl in
        (
          voters,
          subst (λ d. IsTally self (a ∷ answers) d voters) c
              (kept_IsTally a self answers voters b t),
        )
    | inr y ↦
        let c : count_vote a.peer b ≡ counted_ballot a.peer a.response b =
          rw (x, y, counted_ballot) refl in
        (
          a.peer ∷ voters,
          subst (λ d. IsTally self (a ∷ answers) d (a.peer ∷ voters)) c
              (record {
                counts =
                    counted a answers voters t.counts x e
                      (λ z. let w = subst (λ p. b.vote_map p ≡ false) z y in let o = t.own in cc)
                      (elim (Bool-cases (is_in a.peer voters)) [
                        | inr i ↦ i
                        | inl i ↦ let w = t.marked a.peer i in cc
                      ]);
                collected = let h = t.collected in omega arith;
                own = let o = t.own in ground arith;
                marked = λ p m. let w = t.marked p in ground arith;
              }),
        )
  ]
]
