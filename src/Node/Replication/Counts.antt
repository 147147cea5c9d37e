-- ===== src/Node/Replication/Counts.antt =====
-- The count of the match indexes behind the commit index of the leader.
use raft_based_distributed_l.Node.Context.{NodeContext, trigger_commit_channel, trigger_ae_channel}
use native.Mathlib.Decide.{dec_lt}
use raft_based_distributed_l.Node.State.{Node, PeerNode}
use raft_based_distributed_l.Node.Replication.{
  advance_commit_index, matched_peers, majority_commit, has_majority, advance_loop,
}
use raft_based_distributed_l.Prelude.{
  length, ltb→lt, ltb-false→le, leb, ◌*◌, [], ◌∷◌, ltb, ◌-◌, sym, subst, add64, refl, inr, arith,
  inl, false, Bool-cases, true, if◌then◌else◌, ◌^◌, ◌+◌, ◌⊎◌, ◌≤◌, ◌≡◌, ◌<◌, Bool, zero, suc, ℕ,
  List,
}

-- What the loop over the indexes from `k` to `top` makes of `old`.
record Scanned (majority : ℕ → Bool) (k top old new : ℕ) : Type 0 where
  choice : (new ≡ old) ⊎ ((k ≤ new) × (new ≤ top) × (majority new ≡ true))
  greatest : (j : ℕ) → k ≤ j → new < j → j ≤ top → majority j ≡ false

reached :
    (majority : ℕ → Bool) (k top old new : ℕ)
    → Scanned majority (k + 1) top (if majority k then k else old) new
    → majority k ≡ true
    → (new ≡ k) ⊎ (k < new)
reached majority k top old new s y = elim s.choice [
  | inl e ↦ inl (rw y at e)
  | inr c ↦ inr (omega (arith, c.0))
]

Scanned-step :
    (majority : ℕ → Bool) (k top old new : ℕ)
    → old < k
    → k ≤ top
    → Scanned majority (k + 1) top (if majority k then k else old) new
    → Scanned majority k top old new
Scanned-step majority k top old new lt le s = elim (Bool-cases (majority k)) [
  | inl y ↦ record {
    choice = elim s.choice [
      | inl e ↦
          let e' : new ≡ k = rw y at e in
          inr (omega arith, omega arith, subst (λ j. majority j ≡ true) (sym e') y)
      | inr c ↦ inr (omega (arith, c.0), c.1, c.2)
    ];
    greatest = λ j low high in_log. elim (dec_lt k j) [
      | yes h ↦ s.greatest j (omega arith) high in_log
      | no h ↦
          absurd (elim (reached majority k top old new s y) [
            | inl e ↦ omega arith
            | inr l ↦ omega arith
          ])
    ];
  }
  | inr n ↦ record {
    choice = elim s.choice [ inl e ↦ inl (rw n at e) | inr c ↦ inr (omega (arith, c.0), c.1, c.2) ];
    greatest = λ j low high in_log. elim (dec_lt k j) [
      | yes h ↦ s.greatest j (omega arith) high in_log
      | no h ↦ let same : j ≡ k = omega arith in rw same n
    ];
  }
]

advance_loop-Scanned :
    (rounds k commit top : ℕ) (peer_id : List ℕ) (ps : List PeerNode)
    → k + rounds ≡ top + 1
    → commit < k
    → top + 1 < 2 ^ 64
    → Scanned (has_majority peer_id ps) k top commit (advance_loop rounds k peer_id ps commit)
unfolding advance_loop
advance_loop-Scanned zero k commit top peer_id ps range lt small = record {
  choice = inl refl;
  greatest = λ j low high in_log. absurd (omega arith);
}
advance_loop-Scanned (suc rounds) k commit top peer_id ps range lt small =
    let next : add64 k 1 ≡ k + 1 = omega arith in
    let below : (if has_majority peer_id ps k then k else commit) < k + 1 = ground arith in
    rw next (
      Scanned-step (has_majority peer_id ps) k top commit _ lt (omega arith)
        (advance_loop-Scanned rounds (k + 1) _ top peer_id ps (omega arith) below small))

pub record Chosen (majority : ℕ → Bool) (old top new : ℕ) : Type 0 where
  pub not_lower : old ≤ new
  pub in_log : new ≤ top
  pub by_majority : old < new → majority new ≡ true
  pub greatest : (j : ℕ) → new < j → j ≤ top → majority j ≡ false

Scanned-Chosen :
    (majority : ℕ → Bool) (old top new : ℕ)
    → old ≤ top
    → Scanned majority (old + 1) top old new
    → Chosen majority old top new
Scanned-Chosen majority old top new le s = elim s.choice [
  | inl e ↦ record {
    not_lower = omega arith;
    in_log = omega arith;
    by_majority = λ h. absurd (omega arith);
    greatest = λ j high in_log. s.greatest j (omega arith) high in_log;
  }
  | inr c ↦ record {
    not_lower = omega (arith, c.0);
    in_log = c.1;
    by_majority = λ h. c.2;
    greatest = λ j high in_log. s.greatest j (omega (arith, c.0)) high in_log;
  }
]

pub majority_commit-Chosen :
    (n : Node)
    → n.context.commit_index ≤ n.log_entry_in_memory.maximum_index
    → n.log_entry_in_memory.maximum_index + 1 < 2 ^ 64
    → Chosen
        (has_majority n.config.peer_id n.peer_list)
        n.context.commit_index
        n.log_entry_in_memory.maximum_index
        (majority_commit n)
unfolding majority_commit
majority_commit-Chosen n le small =
    let next : add64 n.context.commit_index 1 ≡ n.context.commit_index + 1 = omega arith in
    Scanned-Chosen _ _ _ _ le (
      rw next (
        advance_loop-Scanned (n.log_entry_in_memory.maximum_index - n.context.commit_index)
          (n.context.commit_index + 1) n.context.commit_index n.log_entry_in_memory.maximum_index
          n.config.peer_id n.peer_list (omega arith) (omega arith) small))

signals_kept :
    (nc : NodeContext)
    → (trigger_ae_channel (trigger_commit_channel nc)).commit_index ≡ nc.commit_index
unfolding trigger_ae_channel trigger_commit_channel
signals_kept nc = ground arith

pub commit_index-advance_commit_index :
    (n : Node) → (advance_commit_index n).context.commit_index ≡ majority_commit n
unfolding advance_commit_index
commit_index-advance_commit_index n =
    elim (Bool-cases (ltb n.context.commit_index (majority_commit n))) [
      | inl h ↦
          rw (h, advance_commit_index)
            (signals_kept (record n.context { commit_index = majority_commit n }))
      | inr h ↦ rw (h, advance_commit_index) refl
    ]

-- Some of the peers of a list, each with a recorded match index of `k` at least.
pub data Holders (k : ℕ) : List PeerNode → List PeerNode → Type 0 where
  nobody : Holders k [] []
  left_out : (p : PeerNode) (ps hs : List PeerNode) → Holders k ps hs → Holders k (p ∷ ps) hs
  holds :
      (p : PeerNode) (ps hs : List PeerNode)
      → k ≤ p.match_index
      → Holders k ps hs
      → Holders k (p ∷ ps) (p ∷ hs)

-- More than half of a cluster with so many peers, the leader counted in, have the index `k`.
abbrev pub IsMajority : ℕ → List PeerNode → ℕ → Type 0
IsMajority peers ps k =
    (hs : List PeerNode) × Holders k ps hs × (peers + 1 < length hs + 1 + (length hs + 1))

matched_peers-Holders :
    (k : ℕ) (ps : List PeerNode)
    → (hs : List PeerNode) × Holders k ps hs × (length hs ≡ matched_peers k ps)
unfolding matched_peers
matched_peers-Holders k [] = ([], nobody, refl)
matched_peers-Holders k (p ∷ ps) =
    let (hs, some_hold, count) = matched_peers-Holders k ps in
    elim (Bool-cases (leb k p.match_index)) [
      | inl y ↦ (p ∷ hs, holds p ps hs (ground arith) some_hold, rw (y) (omega arith))
      | inr y ↦ (hs, left_out p ps hs some_hold, rw (y) (omega arith))
    ]

length-Holders : (k : ℕ) (ps hs : List PeerNode) → Holders k ps hs → length hs ≤ matched_peers k ps
unfolding matched_peers
length-Holders k _ _ nobody = omega arith
length-Holders k _ _ (left_out p ps hs h) = let less = length-Holders k ps hs h in omega arith
length-Holders k _ _ (holds p ps hs l h) =
    let less = length-Holders k ps hs h in
    let y : leb k p.match_index ≡ true = ground arith in rw (y) (omega arith)

pub has_majority-IsMajority :
    (ids : List ℕ) (ps : List PeerNode) (k : ℕ)
    → has_majority ids ps k ≡ true
    → IsMajority (length ids) ps k
has_majority-IsMajority ids ps k h =
    let (hs, some_hold, count) = matched_peers-Holders k ps in
    let more = ltb→lt (length ids + 1) (2 * (1 + matched_peers k ps)) h in
    (hs, some_hold, omega arith)

pub has_majority-false :
    (ids : List ℕ) (ps : List PeerNode) (k : ℕ)
    → has_majority ids ps k ≡ false
    → ¬ IsMajority (length ids) ps k
has_majority-false ids ps k h (hs, some_hold, more) =
    let less = length-Holders k ps hs some_hold in
    let most = ltb-false→le (length ids + 1) (2 * (1 + matched_peers k ps)) h in omega arith
