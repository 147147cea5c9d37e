-- ===== src/Node/P2pServer/Stored.antt =====
-- What AppendEntries leaves in the log.
use raft_based_distributed_l.Node.Messages.{AppendEntriesRequest, AppendEntriesResponse}
use raft_based_distributed_l.Storage.LogMemory.Contents.{insert_valid_entry_list-ok}
use raft_based_distributed_l.Node.Context.{NodeContext, trigger_commit_channel}
use raft_based_distributed_l.Util.{uint64_min}
use raft_based_distributed_l.Storage.LogEntry.{LogEntry}
use raft_based_distributed_l.Storage.LogMemory.{insert_valid_entry_list, LogMemory}
use raft_based_distributed_l.Node.State.{Node, become_follower}
use raft_based_distributed_l.Storage.Codec.{Codec}
use raft_based_distributed_l.Node.P2pServer.{
  first_response, is_dead, append_entries_alive, follow_leader, append_entries_service,
  new_log_entries, prev_matches, conflict, advance_commit, is_follower, store_entries,
  accept_entries, refuse_entries, hear_higher, hear_leader,
}
use raft_based_distributed_l.Prelude.{
  ==_iff, ◌==◌, ap, sym, refl, ltb-false→le, ltb→lt, ◌∙◌, arith, ◌≤◌, inr, true, inl, ltb,
  Bool-cases, false, Bool, max, if◌then◌else◌, ℕ, ◌≡◌, List,
}
use raft_based_distributed_l.Exec.{err, Result-cases, ok, Result}

abbrev pub succeeds : Result AppendEntriesResponse → Bool
succeeds (ok response) = response.success
succeeds (err e) = false

-- Hearing from a leader does not touch the log and the commit index.
pub record Heard (request : AppendEntriesRequest) (n n' : Node) : Type 0 where
  pub log : n'.log_entry_in_memory ≡ n.log_entry_in_memory
  pub commit : n'.context.commit_index ≡ n.context.commit_index
  pub term : n'.context.current_term ≡ max n.context.current_term request.term

hear_higher-Heard :
    (now : ℕ) (request : AppendEntriesRequest) (n : Node)
    → Heard request n (hear_higher now request n)
unfolding hear_higher become_follower
hear_higher-Heard now request n = elim (Bool-cases (ltb n.context.current_term request.term)) [
  | inl h ↦
      rw (h, hear_higher) (record { log = refl; commit = refl; term = omega (arith, ltb→lt _ _ h) })
  | inr h ↦
      rw (h, hear_higher)
        (record { log = refl; commit = refl; term = omega (arith, ltb-false→le _ _ h) })
]

hear_leader-Heard :
    (now : ℕ) (request : AppendEntriesRequest) (n n' : Node)
    → Heard request n n'
    → request.term ≡ n'.context.current_term
    → Heard request n (hear_leader now request n')
unfolding hear_leader become_follower
hear_leader-Heard now request n n' h e = elim (Bool-cases (is_follower n'.context.node_state)) [
  | inl f ↦ rw (f, hear_leader) (record { log = h.log; commit = h.commit; term = h.term })
  | inr f ↦ rw (f, hear_leader) (record { log = h.log; commit = h.commit; term = e ∙ h.term })
]

-- The commit index after a request that succeeds.
abbrev pub committed : AppendEntriesRequest → ℕ → LogMemory → ℕ
committed request old lm =
    if ltb old request.commit_entry_index
    then uint64_min request.commit_entry_index lm.maximum_index
    else old

record CommitAdvanced (request : AppendEntriesRequest) (n n' : Node) : Type 0 where
  log : n'.log_entry_in_memory ≡ n.log_entry_in_memory
  term : n'.context.current_term ≡ n.context.current_term
  commit : n'.context.commit_index ≡ committed request n.context.commit_index n.log_entry_in_memory

trigger_commit_channel_kept :
    (nc : NodeContext)
    → ((trigger_commit_channel nc).current_term ≡ nc.current_term)
      × ((trigger_commit_channel nc).commit_index ≡ nc.commit_index)
unfolding trigger_commit_channel
trigger_commit_channel_kept nc = elim (Bool-cases (nc.commit_chan == 0)) [
  | inl h ↦ rw (h, trigger_commit_channel) (refl, refl)
  | inr h ↦ rw (h, trigger_commit_channel) (refl, refl)
]

advance_commit-CommitAdvanced :
    (request : AppendEntriesRequest) (n : Node)
    → CommitAdvanced request n (advance_commit request.commit_entry_index n)
unfolding advance_commit
advance_commit-CommitAdvanced request n =
    let top = uint64_min request.commit_entry_index n.log_entry_in_memory.maximum_index in
    let kept = trigger_commit_channel_kept (record n.context { commit_index = top }) in
    elim (Bool-cases (ltb n.context.commit_index request.commit_entry_index)) [
      | inl h ↦
          rw (h, advance_commit) (record { log = refl; term = kept.0; commit = kept.1 ∙ rw h refl })
      | inr h ↦ rw (h, advance_commit) (record { log = refl; term = refl; commit = rw h refl })
    ]

module _ (codec : Codec) where
  -- A request that succeeds comes in the node's term or a higher one, finds the entry before its own
  -- in the log, and leaves exactly its entries inserted and the commit index advanced. Any other
  -- leaves the log and the commit index.
  pub data Answered (request : AppendEntriesRequest) (n : Node)
      (r : Result AppendEntriesResponse × Node) : Type 0 where
    refused : succeeds r.0 ≡ false → Heard request n r.1 → Answered request n r
    stored :
        (es : List LogEntry)
        → succeeds r.0 ≡ true
        → n.context.current_term ≤ request.term
        → r.1.context.current_term ≡ request.term
        → prev_matches request n.log_entry_in_memory ≡ ok true
        → new_log_entries codec request.entry_list ≡ ok es
        → r.1.log_entry_in_memory ≡ (insert_valid_entry_list es n.log_entry_in_memory).1
        → r.1.context.commit_index
          ≡ committed request n.context.commit_index
              (insert_valid_entry_list es n.log_entry_in_memory).1
        → Answered request n r

  accept_entries-Answered :
      (request : AppendEntriesRequest) (response : AppendEntriesResponse) (n n' : Node)
      → Heard request n n'
      → request.term ≡ n'.context.current_term
      → prev_matches request n.log_entry_in_memory ≡ ok true
      → response.success ≡ false
      → Answered request n (accept_entries codec request response n')
  unfolding accept_entries store_entries advance_commit trigger_commit_channel
  accept_entries-Answered request response n n' h e prev s =
      elim (Result-cases (new_log_entries codec request.entry_list)) [
        | inr (x, q) ↦ rw (q, accept_entries) (refused refl h)
        | inl (es, q) ↦
            let m = record n' {
              log_entry_in_memory = (insert_valid_entry_list es n'.log_entry_in_memory).1;
            } in
            let adv = advance_commit-CommitAdvanced request m in
            let same = ap (λ lm. (insert_valid_entry_list es lm).1) h.log in
            rw
              (
                q,
                insert_valid_entry_list-ok es n'.log_entry_in_memory,
                accept_entries,
                store_entries,
              )
              (stored es refl (omega (arith, h.term)) (adv.term ∙ sym e) prev q (adv.log ∙ same) (
                adv.commit
                ∙ ap (committed request n'.context.commit_index) same
                ∙ ap (λ c. committed request c (insert_valid_entry_list es n.log_entry_in_memory).1)
                    h.commit))
      ]

  refuse_entries-Answered :
      (request : AppendEntriesRequest) (response : AppendEntriesResponse) (n n' : Node)
      → Heard request n n'
      → response.success ≡ false
      → Answered request n (refuse_entries codec request response n')
  unfolding refuse_entries
  refuse_entries-Answered request response n n' h s =
      elim (Result-cases (conflict request n'.log_entry_in_memory)) [
        | inr (x, q) ↦ rw (q, refuse_entries) (refused refl h)
        | inl (c, q) ↦ rw (q, refuse_entries) (refused s h)
      ]

  follow_leader-Answered :
      (now : ℕ) (request : AppendEntriesRequest) (response : AppendEntriesResponse) (n n' : Node)
      → Heard request n n'
      → request.term ≡ n'.context.current_term
      → response.success ≡ false
      → Answered request n (follow_leader codec now request response n')
  unfolding follow_leader
  follow_leader-Answered now request response n n' h e s =
      let t = hear_leader now request n' in
      let heard = hear_leader-Heard now request n n' h e in
      elim (Result-cases (prev_matches request t.log_entry_in_memory)) [
        | inr (x, q) ↦ rw (q, follow_leader) (refused refl heard)
        | inl (true, q) ↦
            rw (q, follow_leader)
              (accept_entries-Answered request response n t heard
                (omega (arith, h.term, heard.term)) (ap (prev_matches request) (sym heard.log) ∙ q)
                s)
        | inl (false, q) ↦
            rw (q, follow_leader) (refuse_entries-Answered request response n t heard s)
      ]

  -- Every answer of AppendEntries of a node that is not dead. A success comes in the term of the
  -- node or a higher one, which becomes its term, and if the log has the previous entry of the
  -- request; then exactly the entries of the request are inserted into the log, and the commit
  -- index is raised to the lesser of the commit index of the request and the last index, if it
  -- was below the former. Without success the log and the commit index stay, and the term is the
  -- greater of the two.
  pub append_entries_service-Answered :
      (now : ℕ) (request : AppendEntriesRequest) (n : Node)
      → is_dead n.context.node_state ≡ false
      → Answered request n (append_entries_service codec now request n)
  unfolding append_entries_service append_entries_alive
  append_entries_service-Answered now request n alive =
      let t = hear_higher now request n in
      let heard = hear_higher-Heard now request n in
      elim (Bool-cases (request.term == t.context.current_term)) [
        | inl h ↦
            rw (alive, h, append_entries_service, append_entries_alive)
              (follow_leader-Answered now request (first_response codec n t) n t heard
                ((==_iff request.term t.context.current_term).0 h) refl)
        | inr h ↦ rw (alive, h, append_entries_service, append_entries_alive) (refused refl heard)
      ]
