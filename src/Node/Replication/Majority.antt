-- ===== src/Node/Replication/Majority.antt =====
-- What the leader makes of the success of a peer.
use raft_based_distributed_l.Node.Replication.Counts.{
  majority_commit-Chosen, commit_index-advance_commit_index, has_majority-false,
  has_majority-IsMajority, IsMajority, Chosen,
}
use raft_based_distributed_l.Node.Messages.{AppendEntriesResponse}
use raft_based_distributed_l.Node.State.{Node, PeerNode}
use raft_based_distributed_l.Node.Replication.{
  majority_commit, entries_appended, has_majority, handle_append_response, advance_commit_index,
  is_leader, Sent, on_peer, matched_up_to,
}
use raft_based_distributed_l.Prelude.{
  subst, ==_iff, ◌==◌, ltb-false→le, ltb→lt, le→ltb-false, ◌-◌, false, arith, length, ltb, sub64,
  ◌⊎◌, ◌+◌, ◌^◌, Bool-cases, ◌<◌, ◌≤◌, add64, ◌≡◌, [], ◌∷◌, zero, suc, inl, inr, ℕ, List, true,
  refl,
}

-- What a success does to the list of the peers: the next index of the one at the position is set,
-- and the match index is raised to the index before it, never lowered; the others stay.
pub data Raised (next : ℕ) : ℕ → List PeerNode → List PeerNode → Type 0 where
  outside : (i : ℕ) → Raised next i [] []
  here :
      (p q : PeerNode) (ps : List PeerNode)
      → q.peer_id ≡ p.peer_id
      → q.next_index ≡ next
      → (p.match_index ≤ q.match_index) × (next ≤ q.match_index + 1)
      → (q.match_index ≡ p.match_index) ⊎ (q.match_index + 1 ≡ next)
      → Raised next 0 (p ∷ ps) (q ∷ ps)
  there :
      (i : ℕ) (p : PeerNode) (ps qs : List PeerNode)
      → Raised next i ps qs
      → Raised next (suc i) (p ∷ ps) (p ∷ qs)

-- The commit index `new` behind `old` of a leader that knows the match indexes of `peers` peers,
-- in a log with the last index `top`.
pub record Committed (peers : ℕ) (ps : List PeerNode) (old top new : ℕ) : Type 0 where
  pub not_lower : old ≤ new
  pub in_log : new ≤ top
  pub by_majority : old < new → IsMajority peers ps new
  pub greatest : (j : ℕ) → new < j → j ≤ top → ¬ IsMajority peers ps j

matched_up_to-Raised :
    (next : ℕ) (p : PeerNode) (ps : List PeerNode)
    → 0 < next
    → next < 2 ^ 64
    → Raised next 0 (p ∷ ps) (matched_up_to next p ∷ ps)
unfolding matched_up_to
matched_up_to-Raised next p ps pos small =
    let before : sub64 next 1 ≡ next - 1 = omega arith in
    elim (Bool-cases (ltb p.match_index (sub64 next 1))) [
      | inl l ↦
          let less = ltb→lt p.match_index (sub64 next 1) l in
          here p (matched_up_to next p) ps refl refl
            (rw (l, matched_up_to) (omega arith, omega arith))
            (inr (rw (l, matched_up_to) (omega arith)))
      | inr l ↦
          let less = ltb-false→le p.match_index (sub64 next 1) l in
          here p (matched_up_to next p) ps refl refl
            (rw (l, matched_up_to) (omega arith, omega arith)) (inl (rw (l, matched_up_to) refl))
    ]

on_peer-Raised :
    (next i : ℕ) (ps : List PeerNode)
    → 0 < next
    → next < 2 ^ 64
    → Raised next i ps (on_peer i (matched_up_to next) ps)
unfolding on_peer
on_peer-Raised next i [] pos small = outside i
on_peer-Raised next zero (p ∷ ps) pos small = matched_up_to-Raised next p ps pos small
on_peer-Raised next (suc i) (p ∷ ps) pos small = there i p ps _ (on_peer-Raised next i ps pos small)

Chosen-Committed :
    (ids : List ℕ) (ps : List PeerNode) (old top new : ℕ)
    → Chosen (has_majority ids ps) old top new
    → Committed (length ids) ps old top new
Chosen-Committed ids ps old top new c = record {
  not_lower = c.not_lower;
  in_log = c.in_log;
  by_majority = λ h. has_majority-IsMajority ids ps new (c.by_majority h);
  greatest = λ j high low. has_majority-false ids ps j (c.greatest j high low);
}

peer_list-advance_commit_index : (n : Node) → (advance_commit_index n).peer_list ≡ n.peer_list
unfolding advance_commit_index
peer_list-advance_commit_index n =
    elim (Bool-cases (ltb n.context.commit_index (majority_commit n))) [
      | inl h ↦ rw (h, advance_commit_index) refl
      | inr h ↦ rw (h, advance_commit_index) refl
    ]

abbrev with_matched : Sent → Node → Node
with_matched sent n = record n {
  peer_list =
      on_peer sent.peer (matched_up_to (add64 sent.next_index sent.entry_length)) n.peer_list;
}

handle_append_response-success :
    (now peer_id : ℕ) (sent : Sent) (response : AppendEntriesResponse) (n : Node)
    → is_leader n.context.node_state ≡ true
    → response.term ≡ sent.start_current_term
    → response.success ≡ true
    → handle_append_response now peer_id sent response n
      ≡ advance_commit_index (with_matched sent n)
unfolding handle_append_response entries_appended
handle_append_response-success now peer_id sent response n lead same success =
    let fresh : ltb sent.start_current_term response.term ≡ false =
      le→ltb-false _ _ (omega arith) in
    let equal : (response.term == sent.start_current_term) ≡ true = (==_iff _ _).1 same in
    rw (lead, fresh, equal, success) refl

-- If the node leads, the answer of a peer is a success in the term of the request, the next index
-- that was recorded is not 0 and stays below 2^64 with the entries that were sent, the commit
-- index is at most the last index, and that is below 2^64 - 1, then the next index of the peer is
-- set to the one behind these entries and its match index is raised to the one before that and
-- not lowered, and no other peer changes; the commit index is not lower and still one of the log;
-- if it is higher, there are peers with a recorded match index of at least that which are with
-- the leader more than half of the cluster; and for no higher index of the log there are such
-- peers.
pub handle_append_response-Committed :
    (now peer_id : ℕ) (sent : Sent) (response : AppendEntriesResponse) (n : Node)
    → is_leader n.context.node_state ≡ true
    → response.term ≡ sent.start_current_term
    → response.success ≡ true
    → 0 < sent.next_index
    → sent.next_index + sent.entry_length < 2 ^ 64
    → n.context.commit_index ≤ n.log_entry_in_memory.maximum_index
    → n.log_entry_in_memory.maximum_index + 1 < 2 ^ 64
    → Raised
        (sent.next_index + sent.entry_length)
        sent.peer
        n.peer_list
        (handle_append_response now peer_id sent response n).peer_list
      × Committed
          (length n.config.peer_id)
          (handle_append_response now peer_id sent response n).peer_list
          n.context.commit_index
          n.log_entry_in_memory.maximum_index
          (handle_append_response now peer_id sent response n).context.commit_index
handle_append_response-Committed now peer_id sent response n lead same success pos fits le small =
    let n' = with_matched sent n in
    let next : add64 sent.next_index sent.entry_length ≡ sent.next_index + sent.entry_length =
      omega arith in
    rw
      (
        handle_append_response-success now peer_id sent response n lead same success,
        peer_list-advance_commit_index n',
        commit_index-advance_commit_index n',
      )
      (
        subst (λ k. Raised k sent.peer n.peer_list n'.peer_list) next
            (on_peer-Raised (add64 sent.next_index sent.entry_length) sent.peer n.peer_list
              (omega arith) (omega arith)),
        Chosen-Committed n.config.peer_id n'.peer_list n.context.commit_index
            n.log_entry_in_memory.maximum_index (majority_commit n')
            (majority_commit-Chosen n' le small),
      )
