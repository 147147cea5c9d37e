-- ===== src/Node/Election/Quorums.antt =====
-- Two leaders of one term.
use raft_based_distributed_l.Node.Replication.{is_leader}
use raft_based_distributed_l.Node.State.{Node}
use raft_based_distributed_l.Node.Election.{handle_candidate_vote, Ballot}
use raft_based_distributed_l.Storage.Codec.{Codec}
use raft_based_distributed_l.Node.Election.Tally.{
  is_in, Voters, Answer, no_answer, not_counted, counted,
}
use raft_based_distributed_l.Node.Election.Votes.{Election, handle_candidate_vote-Majority}
use raft_based_distributed_l.Prelude.{
  ◌+◌, Text, ◌∙◌, sym, subst, length-append, refl, Bool-cases, ◌||◌, suc, ◌⊎◌, ◌*◌, arith, ◌≤◌,
  ◌==◌, ◌≡◌, ◌<◌, ◌++◌, length, if◌then◌else◌, List, ℕ, [], ◌∷◌, true, false, inl, inr,
}

abbrev AllDistinct : List ℕ → Type 0
AllDistinct [] = Unit {0}
AllDistinct (x ∷ xs) = (is_in x xs ≡ false) × AllDistinct xs

abbrev Within : List ℕ → List ℕ → Type 0
Within vs ids = (p : ℕ) → is_in p vs ≡ true → is_in p ids ≡ true

abbrev without : ℕ → List ℕ → List ℕ
without p [] = []
without p (q ∷ qs) = if q == p then qs else q ∷ without p qs

length-without :
    (p : ℕ) (ids : List ℕ) → is_in p ids ≡ true → length ids ≡ suc (length (without p ids))
length-without p [] h = cc
length-without p (q ∷ qs) h = elim (Bool-cases (q == p)) [
  | inl e ↦ rw (e) refl
  | inr e ↦
      let h' : is_in p qs ≡ true = rw (e) at h in
      let behind = length-without p qs h' in rw (e) (omega arith)
]

is_in-without :
    (p q : ℕ) (ids : List ℕ)
    → is_in q ids ≡ true
    → (p == q) ≡ false
    → is_in q (without p ids) ≡ true
is_in-without p q [] h ne = h
is_in-without p q (x ∷ xs) h ne = let behind = is_in-without p q xs in ground arith

is_in-append : (p : ℕ) (vs us : List ℕ) → is_in p (vs ++ us) ≡ (is_in p vs || is_in p us)
is_in-append p [] us = refl
is_in-append p (x ∷ xs) us = let behind = is_in-append p xs us in ground arith

-- Distinct members of a list are no more than its length.
length-Within : (vs ids : List ℕ) → AllDistinct vs → Within vs ids → length vs ≤ length ids
length-Within [] ids d w = omega arith
length-Within (x ∷ xs) ids d w =
    let x_in : is_in x ids ≡ true = w x (ground arith) in
    let shorter = length-without x ids x_in in
    let rest : Within xs (without x ids) = λ p m. elim (Bool-cases (x == p)) [
      | inl e ↦
          let same : x ≡ p = ground arith in
          let m' = subst (λ q. is_in q xs ≡ true) (sym same) m in
          let no = d.0 in absurd (let z = sym no ∙ m' in cc)
      | inr e ↦ is_in-without x p ids (w p (ground arith)) e
    ] in
    omega (arith, length-Within xs (without x ids) d.1 rest)

append-AllDistinct :
    (vs us : List ℕ)
    → AllDistinct vs
    → AllDistinct us
    → ((p : ℕ) → is_in p vs ≡ true → is_in p us ≡ false)
    → AllDistinct (vs ++ us)
append-AllDistinct [] us d d' h = d'
append-AllDistinct (x ∷ xs) us d d' h = (
  (let a = is_in-append x xs us in let b = d.0 in let c = h x (ground arith) in ground arith),
  append-AllDistinct xs us d.1 d' (λ p m. h p (ground arith)),
)

find_common :
    (vs us : List ℕ)
    → ((p : ℕ) × (is_in p vs ≡ true) × (is_in p us ≡ true))
      ⊎ ((p : ℕ) → is_in p vs ≡ true → is_in p us ≡ false)
find_common [] us = inr (λ p m. absurd (let z = m in cc))
find_common (x ∷ xs) us = elim (Bool-cases (is_in x us)) [
  | inl y ↦ inl (x, ground arith, y)
  | inr y ↦ elim (find_common xs us) [
    | inl (p, m, k) ↦ inl (p, ground arith, k)
    | inr h ↦ inr (λ p m. elim (Bool-cases (x == p)) [
      | inl e ↦ let same : x ≡ p = ground arith in subst (λ q. is_in q us ≡ false) same y
      | inr e ↦ h p (rw (e) at m)
    ])
  ]
]

-- Two majorities of a list share a member.
majorities_meet :
    (ids vs us : List ℕ)
    → AllDistinct vs
    → AllDistinct us
    → Within vs ids
    → Within us ids
    → length ids < 2 * length vs
    → length ids < 2 * length us
    → (p : ℕ) × (is_in p vs ≡ true) × (is_in p us ≡ true)
majorities_meet ids vs us d d' w w' h h' = elim (find_common vs us) [
  | inl r ↦ r
  | inr apart ↦
      let both : Within (vs ++ us) ids = λ p m. elim (Bool-cases (is_in p vs)) [
        | inl y ↦ w p y
        | inr y ↦ w' p (let a = is_in-append p vs us in ground arith)
      ] in
      let most = length-Within (vs ++ us) ids (append-AllDistinct vs us d d' apart) both in
      absurd (omega (arith, length-append vs us))
]

abbrev AllFrom : List ℕ → List Answer → Type 0
AllFrom ids [] = Unit {0}
AllFrom ids (a ∷ answers) = (is_in a.peer ids ≡ true) × AllFrom ids answers

Voters-Within :
    (self term : ℕ) (ids : List ℕ) (answers : List Answer) (voters : List ℕ)
    → Voters self term answers voters
    → AllFrom ids answers
    → Within voters ids
Voters-Within self term ids _ _ no_answer f p m = absurd (let z = m in cc)
Voters-Within self term ids _ _ (not_counted a answers voters v) f p m =
    Voters-Within self term ids answers voters v f.1 p m
Voters-Within self term ids _ _ (counted a answers voters v x t s i) f p m =
    elim (Bool-cases (a.peer == p)) [
      | inl e ↦ let same : a.peer ≡ p = ground arith in subst (λ q. is_in q ids ≡ true) same f.0
      | inr e ↦ Voters-Within self term ids answers voters v f.1 p (rw (e) at m)
    ]

Voters-AllDistinct :
    (self term : ℕ) (answers : List Answer) (voters : List ℕ)
    → Voters self term answers voters
    → (is_in self voters ≡ false) × AllDistinct voters
Voters-AllDistinct self term _ _ no_answer = (refl, tt)
Voters-AllDistinct self term _ _ (not_counted a answers voters v) =
    Voters-AllDistinct self term answers voters v
Voters-AllDistinct self term _ _ (counted a answers voters v x t s i) =
    let (out, d) = Voters-AllDistinct self term answers voters v in
    (
      elim (Bool-cases (a.peer == self)) [ inl e ↦ absurd (s (ground arith)) | inr e ↦ rw (e) out ],
      (i, d),
    )

with_self :
    (self : ℕ) (vs ids : List ℕ) → is_in self ids ≡ true → Within vs ids → Within (self ∷ vs) ids
with_self self vs ids h w p m = elim (Bool-cases (self == p)) [
  | inl e ↦ let same : self ≡ p = ground arith in subst (λ q. is_in q ids ≡ true) same h
  | inr e ↦ w p (rw (e) at m)
]

-- An answer makes the node a leader, in a cluster of the nodes `ids`.
pub record IsElected (codec : Codec) (ids : List ℕ) (now : ℕ) (names : List Text) (a : Answer)
    (answers : List Answer) (b : Ballot) (n : Node) : Type 0 where
  pub election : Election codec n.config answers b
  pub before : is_leader n.context.node_state ≡ false
  pub after :
      is_leader (handle_candidate_vote codec now names a.peer a.response b n).1.context.node_state
      ≡ true
  pub cluster : length ids ≡ length n.config.peer_id + 1
  pub member : is_in n.config.self_id ids ≡ true
  pub peers : AllFrom ids (a ∷ answers)

-- A node that is a candidate itself or has accepted it in the term.
pub record IsSupporter (self term : ℕ) (answers : List Answer) (p : ℕ) : Type 0 where
  pub voters : List ℕ
  pub counts : Voters self term answers voters
  pub supports : is_in p (self ∷ voters) ≡ true

-- Take two elections in one cluster, each as the majority of votes takes them: every candidate
-- and every peer that answers is a node of the cluster, and the cluster has one node more than
-- each candidate has peers. If an answer makes the first candidate a leader and another the
-- second, then some node supports both: it is the candidate itself or has accepted in the current
-- term of that candidate.
pub elections_meet :
    (codec : Codec) (ids : List ℕ) (now₁ : ℕ) (names₁ : List Text) (a₁ : Answer)
    (answers₁ : List Answer) (b₁ : Ballot) (n₁ : Node) (now₂ : ℕ) (names₂ : List Text) (a₂ : Answer)
    (answers₂ : List Answer) (b₂ : Ballot) (n₂ : Node)
    → IsElected codec ids now₁ names₁ a₁ answers₁ b₁ n₁
    → IsElected codec ids now₂ names₂ a₂ answers₂ b₂ n₂
    → (p : ℕ) × IsSupporter n₁.config.self_id n₁.context.current_term (a₁ ∷ answers₁) p
      × IsSupporter n₂.config.self_id n₂.context.current_term (a₂ ∷ answers₂) p
elections_meet codec ids now₁ names₁ a₁ answers₁ b₁ n₁ now₂ names₂ a₂ answers₂ b₂ n₂ e₁ e₂ =
    let (v₁, c₁, m₁) =
      handle_candidate_vote-Majority codec now₁ names₁ a₁ answers₁ b₁ n₁ e₁.election e₁.before
        e₁.after in
    let (v₂, c₂, m₂) =
      handle_candidate_vote-Majority codec now₂ names₂ a₂ answers₂ b₂ n₂ e₂.election e₂.before
        e₂.after in
    let s₁ = n₁.config.self_id in
    let s₂ = n₂.config.self_id in
    let l₁ = e₁.cluster in
    let l₂ = e₂.cluster in
    let (p, h, k) =
      majorities_meet ids (s₁ ∷ v₁) (s₂ ∷ v₂)
        (Voters-AllDistinct s₁ n₁.context.current_term (a₁ ∷ answers₁) v₁ c₁)
        (Voters-AllDistinct s₂ n₂.context.current_term (a₂ ∷ answers₂) v₂ c₂)
        (with_self s₁ v₁ ids e₁.member
          (Voters-Within s₁ n₁.context.current_term ids (a₁ ∷ answers₁) v₁ c₁ e₁.peers))
        (with_self s₂ v₂ ids e₂.member
          (Voters-Within s₂ n₂.context.current_term ids (a₂ ∷ answers₂) v₂ c₂ e₂.peers))
        (omega arith) (omega arith) in
    (
      p,
      record { voters = v₁; counts = c₁; supports = h },
      record { voters = v₂; counts = c₂; supports = k },
    )
