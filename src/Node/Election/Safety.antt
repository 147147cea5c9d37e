-- ===== src/Node/Election/Safety.antt =====
-- One leader in a term, over the runs of a cluster.
use raft_based_distributed_l.Node.Election.Grants.{Steps-IsSound}
use raft_based_distributed_l.Node.Election.Runs.{Steps, Cluster, Given, Grant}
use raft_based_distributed_l.Node.Election.Quorums.{elections_meet, IsSupporter, IsElected}
use raft_based_distributed_l.Node.Election.Tally.{counted, not_counted, is_in, Voters, Answer}
use raft_based_distributed_l.Node.Election.{Ballot}
use raft_based_distributed_l.Storage.Codec.{Codec}
use raft_based_distributed_l.Node.Election.Tally.{no_answer, not_counted, counted}
use raft_based_distributed_l.Node.State.{Node}
use raft_based_distributed_l.Prelude.{
  Text, subst, Bool-cases, ◌==◌, arith, ◌≡◌, [], ◌∷◌, true, inl, inr, List, ℕ, refl,
}

-- Every answer that accepts is a vote that its sender has given to the candidate.
abbrev pub AllGiven : ℕ → List Answer → List Grant → Type 0
AllGiven self [] gs = Unit {0}
AllGiven self (a ∷ answers) gs =
    (a.response.accepted ≡ true
      → Given (record { voter = a.peer; term = a.response.term; candidate = self }) gs)
    × AllGiven self answers gs

Voters-Given :
    (self term : ℕ) (answers : List Answer) (voters : List ℕ) (gs : List Grant)
    → Voters self term answers voters
    → AllGiven self answers gs
    → (p : ℕ) → is_in p voters ≡ true
    → Given (record { voter = p; term = term; candidate = self }) gs
Voters-Given self term _ _ gs no_answer g p m = absurd (let z = m in cc)
Voters-Given self term _ _ gs (not_counted a answers voters v) g p m =
    Voters-Given self term answers voters gs v g.1 p m
Voters-Given self term _ _ gs (counted a answers voters v x t s i) g p m =
    elim (Bool-cases (a.peer == p)) [
      | inr e ↦ Voters-Given self term answers voters gs v g.1 p (rw (e) at m)
      | inl e ↦
          let same : a.peer ≡ p = ground arith in
          subst (λ q. Given (record { voter = q; term = term; candidate = self }) gs) same
            (subst (λ q. Given (record { voter = a.peer; term = q; candidate = self }) gs) t
              (g.0 x))
    ]

IsSupporter-Given :
    (self term : ℕ) (answers : List Answer) (gs : List Grant) (p : ℕ)
    → IsSupporter self term answers p
    → Given (record { voter = self; term = term; candidate = self }) gs
    → AllGiven self answers gs
    → Given (record { voter = p; term = term; candidate = self }) gs
IsSupporter-Given self term answers gs p s own g = elim (Bool-cases (self == p)) [
  | inl e ↦
      let same : self ≡ p = ground arith in
      subst (λ q. Given (record { voter = q; term = term; candidate = self }) gs) same own
  | inr e ↦
      let k = s.supports in Voters-Given self term answers s.voters gs s.counts g p (rw (e) at k)
]

-- The votes of the candidate and of the peers that have accepted are given.
pub record IsBacked (gs : List Grant) (answers : List Answer) (n : Node) : Type 0 where
  pub own :
      Given
        (record {
          voter = n.config.self_id;
          term = n.context.current_term;
          candidate = n.config.self_id;
        })
        gs
  pub others : AllGiven n.config.self_id answers gs

-- In a run of a cluster, nodes take requests for votes, stand for election, and handle the
-- answers; they take AppendEntries, as followers or of another term, and its answers; in every
-- other step they go to a higher term or keep their term and their vote. A candidate has a
-- nonzero id and a term below 2^64 - 1, and an answer has no higher term than its request was
-- made in, or a higher one than the present. Take two elections, as the majority of votes takes
-- them, in one cluster of nodes, which has one node more than each candidate has peers. If both
-- make leaders in the same term, and every vote that they count, their own included, has been
-- given in the run, then both leaders are the same node.
pub one_leader_per_term :
    (codec : Codec) (gs : List Grant) (c : Cluster) (ids : List ℕ) (now₁ : ℕ) (names₁ : List Text)
    (a₁ : Answer) (answers₁ : List Answer) (b₁ : Ballot) (n₁ : Node) (now₂ : ℕ) (names₂ : List Text)
    (a₂ : Answer) (answers₂ : List Answer) (b₂ : Ballot) (n₂ : Node)
    → Steps codec gs c
    → IsElected codec ids now₁ names₁ a₁ answers₁ b₁ n₁
    → IsElected codec ids now₂ names₂ a₂ answers₂ b₂ n₂
    → IsBacked gs (a₁ ∷ answers₁) n₁
    → IsBacked gs (a₂ ∷ answers₂) n₂
    → n₁.context.current_term ≡ n₂.context.current_term
    → n₁.config.self_id ≡ n₂.config.self_id
one_leader_per_term codec gs c ids now₁ names₁ a₁ answers₁ b₁ n₁ now₂ names₂ a₂ answers₂ b₂ n₂ steps
      e₁ e₂ k₁ k₂ same =
    let (p, s₁, s₂) =
      elections_meet codec ids now₁ names₁ a₁ answers₁ b₁ n₁ now₂ names₂ a₂ answers₂ b₂ n₂ e₁ e₂ in
    let sound = Steps-IsSound codec gs c steps in
    let g₁ = IsSupporter-Given _ _ (a₁ ∷ answers₁) gs p s₁ k₁.own k₁.others in
    let g₂ = IsSupporter-Given _ _ (a₂ ∷ answers₂) gs p s₂ k₂.own k₂.others in
    sound.agree _ _ g₁ g₂ refl same
