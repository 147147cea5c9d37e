-- ===== src/Node/P2pServer/Terms.antt =====
-- What AppendEntries makes of the term and the vote of a node.
use raft_based_distributed_l.Node.Messages.{AppendEntriesRequest, AppendEntriesResponse}
use raft_based_distributed_l.Storage.LogMemory.Contents.{insert_valid_entry_list-ok}
use raft_based_distributed_l.Storage.LogMemory.{insert_valid_entry_list}
use raft_based_distributed_l.Util.{uint64_min}
use raft_based_distributed_l.Node.Context.{NodeContext, trigger_commit_channel}
use raft_based_distributed_l.Node.P2pServer.{
  append_entries_service, first_response, set_hop, is_dead, hear_higher, append_entries_alive,
  new_log_entries, conflict, prev_matches, is_follower, store_entries, hear_leader, refuse_entries,
  accept_entries, follow_leader, advance_commit,
}
use raft_based_distributed_l.Storage.Codec.{Codec}
use raft_based_distributed_l.Node.State.{become_follower, Node}
use raft_based_distributed_l.Prelude.{
  ltb→lt, ◌≢◌, ◌∙◌, ◌==◌, ltb, Bool-cases, ◌⊎◌, arith, ap, ℕ, ◌≡◌, ◌<◌, true, inl, inr, refl,
}
use raft_based_distributed_l.Exec.{Result-cases}

-- The node goes to a higher term, or keeps its term and its vote.
abbrev pub GoesOn : Node → Node → Type 0
GoesOn n n' =
    (n.context.current_term < n'.context.current_term)
    ⊎ ((n'.context.current_term ≡ n.context.current_term)
        × (n'.context.voted_peer ≡ n.context.voted_peer))

abbrev pub term_and_vote : Node → ℕ × ℕ
term_and_vote n = (n.context.current_term, n.context.voted_peer)

pub same_GoesOn : (n n' : Node) → term_and_vote n' ≡ term_and_vote n → GoesOn n n'
same_GoesOn n n' h = inr (ap (λ p. p.0) h, ap (λ p. p.1) h)

pub then_GoesOn : (n n' n″ : Node) → GoesOn n n' → term_and_vote n″ ≡ term_and_vote n' → GoesOn n n″
then_GoesOn n n' n″ (inl h) e = inl (omega (arith, ap (λ p. p.0) e))
then_GoesOn n n' n″ (inr h) e = inr (ap (λ p. p.0) e ∙ h.0, ap (λ p. p.1) e ∙ h.1)

pub trigger_keeps_vote :
    (nc : NodeContext)
    → ((trigger_commit_channel nc).current_term ≡ nc.current_term)
      × ((trigger_commit_channel nc).voted_peer ≡ nc.voted_peer)
unfolding trigger_commit_channel
trigger_keeps_vote nc = elim (Bool-cases (nc.commit_chan == 0)) [
  | inl h ↦ rw (h, trigger_commit_channel) (refl, refl)
  | inr h ↦ rw (h, trigger_commit_channel) (refl, refl)
]

advance_commit_keeps :
    (index : ℕ) (n : Node) → term_and_vote (advance_commit index n) ≡ term_and_vote n
unfolding advance_commit
advance_commit_keeps index n =
    let top = uint64_min index n.log_entry_in_memory.maximum_index in
    let (t, v) = trigger_keeps_vote (record n.context { commit_index = top }) in
    elim (Bool-cases (ltb n.context.commit_index index)) [
      | inl h ↦ rw (h, advance_commit) (λ i. (t i, v i))
      | inr h ↦ rw (h, advance_commit) refl
    ]

module _ (codec : Codec) where
  accept_entries_keeps :
      (request : AppendEntriesRequest) (response : AppendEntriesResponse) (n : Node)
      → term_and_vote (accept_entries codec request response n).1 ≡ term_and_vote n
  unfolding accept_entries store_entries
  accept_entries_keeps request response n =
      elim (Result-cases (new_log_entries codec request.entry_list)) [
        | inr (x, q) ↦ rw (q, accept_entries) refl
        | inl (es, q) ↦
            let lm = (insert_valid_entry_list es n.log_entry_in_memory).1 in
            rw
              (
                q,
                insert_valid_entry_list-ok es n.log_entry_in_memory,
                accept_entries,
                store_entries,
              )
              (advance_commit_keeps request.commit_entry_index
                (record n { log_entry_in_memory = lm }))
      ]

  refuse_entries_keeps :
      (request : AppendEntriesRequest) (response : AppendEntriesResponse) (n : Node)
      → term_and_vote (refuse_entries codec request response n).1 ≡ term_and_vote n
  unfolding refuse_entries
  refuse_entries_keeps request response n =
      elim (Result-cases (conflict request n.log_entry_in_memory)) [
        | inr (x, q) ↦ rw (q, refuse_entries) refl
        | inl (c, q) ↦ rw (q, refuse_entries) refl
      ]

  follow_leader_keeps :
      (now : ℕ) (request : AppendEntriesRequest) (response : AppendEntriesResponse) (n : Node)
      → is_follower n.context.node_state ≡ true
      → term_and_vote (follow_leader codec now request response n).1 ≡ term_and_vote n
  unfolding follow_leader hear_leader
  follow_leader_keeps now request response n f =
      let m = hear_leader now request n in
      let heard : term_and_vote m ≡ term_and_vote n = rw (f, hear_leader) refl in
      elim (Result-cases (prev_matches request m.log_entry_in_memory)) [
        | inr (x, q) ↦ rw (q, follow_leader) heard
        | inl (success, q) ↦ elim (Bool-cases success) [
          | inl s ↦ rw (q, s, follow_leader) (accept_entries_keeps request response m ∙ heard)
          | inr s ↦ rw (q, s, follow_leader) (refuse_entries_keeps request response m ∙ heard)
        ]
      ]

  -- A follower, or a request of another term.
  pub append_entries_service-GoesOn :
      (now : ℕ) (request : AppendEntriesRequest) (n : Node)
      → (is_follower n.context.node_state ≡ true) ⊎ (request.term ≢ n.context.current_term)
      → GoesOn n (append_entries_service codec now request n).1
  unfolding append_entries_service append_entries_alive hear_higher become_follower
  append_entries_service-GoesOn now request n h = elim (Bool-cases (is_dead n.context.node_state)) [
    | inl d ↦ rw (d, append_entries_service) (inr (refl, refl))
    | inr d ↦ elim (Bool-cases (ltb n.context.current_term request.term)) [
      | inl l ↦
          let m = become_follower now request.term (set_hop request.node_id n) in
          let equal : (request.term == request.term) ≡ true = ground arith in
          rw (d, append_entries_service, append_entries_alive, l, hear_higher, equal)
            (then_GoesOn n m (follow_leader codec now request (first_response codec n m) m).1
              (inl (ltb→lt _ _ l))
              (follow_leader_keeps now request (first_response codec n m) m refl))
      | inr l ↦ elim (Bool-cases (request.term == n.context.current_term)) [
        | inr e ↦
            rw (d, append_entries_service, append_entries_alive, l, hear_higher, e)
              (inr (refl, refl))
        | inl e ↦
            let f : is_follower n.context.node_state ≡ true = elim h [
              | inl f ↦ f
              | inr ne ↦ absurd (ne (ground arith))
            ] in
            rw (d, append_entries_service, append_entries_alive, l, hear_higher, e)
              (same_GoesOn n (follow_leader codec now request (first_response codec n n) n).1
                (follow_leader_keeps now request (first_response codec n n) n f))
      ]
    ]
  ]
