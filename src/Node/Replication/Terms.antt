-- ===== src/Node/Replication/Terms.antt =====
-- What an answer to AppendEntries makes of the term and the vote of a node.
use raft_based_distributed_l.Node.Messages.{AppendEntriesResponse}
use raft_based_distributed_l.Node.State.{Node, become_follower}
use raft_based_distributed_l.Node.Context.{trigger_ae_channel, trigger_commit_channel}
use raft_based_distributed_l.Node.Replication.{
  matched_up_to, on_peer, majority_commit, is_leader, next_after_conflict, Sent, entries_appended,
  entries_refused, advance_commit_index, handle_append_response,
}
use raft_based_distributed_l.Node.P2pServer.Terms.{term_and_vote, same_GoesOn, GoesOn}
use raft_based_distributed_l.Prelude.{
  add64, arith, ◌==◌, ltb, ◌<◌, ◌⊎◌, Bool-cases, Option-cases, ◌≤◌, ◌≡◌, ℕ, inl, inr, refl,
}

advance_commit_index_keeps : (n : Node) → term_and_vote (advance_commit_index n) ≡ term_and_vote n
unfolding advance_commit_index trigger_commit_channel trigger_ae_channel
advance_commit_index_keeps n = elim (Bool-cases (ltb n.context.commit_index (majority_commit n))) [
  | inr h ↦ rw (h, advance_commit_index) refl
  | inl h ↦ elim (Bool-cases (n.context.commit_chan == 0)) [
    | inl c ↦ elim (Bool-cases (n.context.append_entry_chan == 0)) [
      | inl d ↦ rw (h, c, d, advance_commit_index, trigger_commit_channel, trigger_ae_channel) refl
      | inr d ↦ rw (h, c, d, advance_commit_index, trigger_commit_channel, trigger_ae_channel) refl
    ]
    | inr c ↦ elim (Bool-cases (n.context.append_entry_chan == 0)) [
      | inl d ↦ rw (h, c, d, advance_commit_index, trigger_commit_channel, trigger_ae_channel) refl
      | inr d ↦ rw (h, c, d, advance_commit_index, trigger_commit_channel, trigger_ae_channel) refl
    ]
  ]
]

entries_refused_keeps :
    (peer_id : ℕ) (sent : Sent) (response : AppendEntriesResponse) (n : Node)
    → term_and_vote (entries_refused peer_id sent response n) ≡ term_and_vote n
unfolding entries_refused
entries_refused_keeps peer_id sent response n =
    elim (Option-cases (next_after_conflict response n.log_entry_in_memory)) [
      | inl q ↦ rw (q, entries_refused) refl
      | inr (next, q) ↦ rw (q, entries_refused) refl
    ]

-- An answer in time.
pub handle_append_response-GoesOn :
    (now peer_id : ℕ) (sent : Sent) (response : AppendEntriesResponse) (n : Node)
    → (response.term ≤ sent.start_current_term) ⊎ (n.context.current_term < response.term)
    → GoesOn n (handle_append_response now peer_id sent response n)
unfolding handle_append_response entries_appended become_follower
handle_append_response-GoesOn now peer_id sent response n in_time =
    elim (Bool-cases (is_leader n.context.node_state)) [
      | inr c ↦ rw (c, handle_append_response) (inr (refl, refl))
      | inl c ↦ elim (Bool-cases (ltb sent.start_current_term response.term)) [
        | inl h ↦ rw (c, h, handle_append_response, become_follower) (inl (ground arith))
        | inr h ↦ elim (Bool-cases (response.term == sent.start_current_term)) [
          | inr e ↦ rw (c, h, e, handle_append_response) (inr (refl, refl))
          | inl e ↦ elim (Bool-cases response.success) [
            | inr s ↦
                rw (c, h, e, s, handle_append_response)
                  (same_GoesOn n (entries_refused peer_id sent response n)
                    (entries_refused_keeps peer_id sent response n))
            | inl s ↦
                rw (c, h, e, s, handle_append_response)
                  (same_GoesOn n (entries_appended sent n) (
                    advance_commit_index_keeps (record n {
                      peer_list =
                          on_peer sent.peer
                            (matched_up_to (add64 sent.next_index sent.entry_length)) n.peer_list;
                    })))
          ]
        ]
      ]
    ]
