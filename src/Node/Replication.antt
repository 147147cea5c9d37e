-- ===== src/Node/Replication.antt =====
-- SendAppendEntriesToPeers of node/node.go: what the leader does with the answer of one peer. The
-- values that the goroutine recorded before it released the mutex are arguments.
pub mod Counts
pub mod Majority
pub mod Terms
pub mod Requests
use raft_based_distributed_l.Node.Messages.{AppendEntriesResponse}
use raft_based_distributed_l.Storage.LogMemory.{fetch_last_index_of_term, LogMemory}
use raft_based_distributed_l.Node.Context.{trigger_commit_channel, trigger_ae_channel, NodeState}
use raft_based_distributed_l.Node.State.{
  send_append_entries, spawn, become_follower, with_context, PeerNode, Node,
}
use raft_based_distributed_l.Node.Context.{leader}
use raft_based_distributed_l.Prelude.{
  none, some, Option, none, some, ◌==◌, ◌*◌, ◌+◌, false, sub64, length, ltb, leb, true, Option,
  add64, if◌then◌else◌, Bool, ◌-◌, zero, suc, [], ◌∷◌, ℕ, List,
}
use raft_based_distributed_l.Exec.{Error, ok, err, no_specific_term}

-- What was recorded when the request was built.
pub record Sent : Type 0 where
  pub start_current_term : ℕ
  pub next_index : ℕ
  pub entry_length : ℕ
  pub peer : ℕ

abbrev pub is_leader : NodeState → Bool
is_leader leader = true
is_leader _ = false

abbrev pub is_no_specific_term : Error → Bool
is_no_specific_term no_specific_term = true
is_no_specific_term _ = false

-- The peers whose log has the index, without the leader itself.
unfoldable pub matched_peers : ℕ → List PeerNode → ℕ
matched_peers k [] = 0
matched_peers k (p ∷ ps) = (if leb k p.match_index then 1 else 0) + matched_peers k ps

abbrev pub has_majority : List ℕ → List PeerNode → ℕ → Bool
has_majority peer_id ps k = ltb (length peer_id + 1) (2 * (1 + matched_peers k ps))

-- The loop over the indexes behind the commit index, with `commit_index` as its variable.
unfoldable pub advance_loop : ℕ → ℕ → List ℕ → List PeerNode → ℕ → ℕ
advance_loop zero k peer_id ps commit_index = commit_index
advance_loop (suc rounds) k peer_id ps commit_index =
    advance_loop rounds (add64 k 1) peer_id ps
      (if has_majority peer_id ps k then k else commit_index)

unfoldable pub majority_commit : Node → ℕ
unfolding advance_loop
majority_commit n =
    advance_loop (n.log_entry_in_memory.maximum_index - n.context.commit_index)
      (add64 n.context.commit_index 1) n.config.peer_id n.peer_list n.context.commit_index

-- A change of the peer at a position of the list.
unfoldable pub on_peer : ℕ → (PeerNode → PeerNode) → List PeerNode → List PeerNode
on_peer i f [] = []
on_peer zero f (p ∷ ps) = f p ∷ ps
on_peer (suc i) f (p ∷ ps) = p ∷ on_peer i f ps

abbrev pub set_next_index : ℕ → PeerNode → PeerNode
set_next_index next p = record p { next_index = next }

-- `NextIndex` is set, and `MatchIndex` is raised to the index before it.
unfoldable pub matched_up_to : ℕ → PeerNode → PeerNode
matched_up_to next p = record p {
  next_index = next;
  match_index = if ltb p.match_index (sub64 next 1) then sub64 next 1 else p.match_index;
}

unfoldable pub advance_commit_index : Node → Node
unfolding majority_commit
advance_commit_index n =
    let k = majority_commit n in
    let n' = with_context (λ nc. record nc { commit_index = k }) n in
    if ltb n.context.commit_index k
    then with_context (λ nc. trigger_ae_channel (trigger_commit_channel nc)) n'
    else n'

unfoldable pub entries_appended : Sent → Node → Node
unfolding on_peer matched_up_to advance_commit_index
entries_appended sent n = advance_commit_index (record n {
  peer_list =
      on_peer sent.peer (matched_up_to (add64 sent.next_index sent.entry_length)) n.peer_list;
})

-- Where to go on after a conflict; `none` if the search fails.
unfoldable pub next_after_conflict : AppendEntriesResponse → LogMemory → Option ℕ
next_after_conflict response lm =
    if ltb 0 response.conflict_entry_term
    then elim (fetch_last_index_of_term lm response.conflict_entry_term) [
      | ok last ↦ some (add64 last 1)
      | err e ↦ if is_no_specific_term e then some response.conflict_entry_index else none
    ]
    else some (if response.conflict_entry_index == 0 then 1 else response.conflict_entry_index)

unfoldable pub entries_refused : ℕ → Sent → AppendEntriesResponse → Node → Node
unfolding next_after_conflict on_peer
entries_refused peer_id sent response n =
    elim (next_after_conflict response n.log_entry_in_memory) [
      | none ↦ n
      | some next ↦
          spawn (send_append_entries (peer_id ∷ []))
            (record n { peer_list = on_peer sent.peer (set_next_index next) n.peer_list })
    ]

-- `peer_id` is the id of the peer at the position `sent.peer`.
unfoldable pub handle_append_response : ℕ → ℕ → Sent → AppendEntriesResponse → Node → Node
unfolding entries_appended entries_refused
handle_append_response now peer_id sent response n =
    if is_leader n.context.node_state
    then if ltb sent.start_current_term response.term
      then become_follower now response.term
          (with_context (λ nc. record nc { hop_to_current_leader_id = 0 }) n)
      else if response.term == sent.start_current_term
      then if response.success
        then entries_appended sent n
        else entries_refused peer_id sent response n
      else n
    else n
