-- ===== src/Node/P2pServer/Commits.antt =====
-- Terms and commit indexes under AppendEntries.
use raft_based_distributed_l.Node.Messages.{AppendEntriesRequest}
use raft_based_distributed_l.Storage.LogMemory.Contents.{maximum_index-insert_list_grows}
use raft_based_distributed_l.Node.P2pServer.{append_entries_service, is_dead}
use raft_based_distributed_l.Storage.Codec.{Codec}
use raft_based_distributed_l.Storage.LogMemory.{LogMemory, insert_valid_entry_list}
use raft_based_distributed_l.Node.State.{Node}
use raft_based_distributed_l.Util.{uint64_min}
use raft_based_distributed_l.Prelude.{ap, false, arith, ◌≤◌, ℕ, ◌≡◌}
use raft_based_distributed_l.Node.P2pServer.Stored.{
  refused, stored, append_entries_service-Answered, committed,
}

committed_between :
    (request : AppendEntriesRequest) (old : ℕ) (lm : LogMemory)
    → old ≤ lm.maximum_index
    → (old ≤ committed request old lm) × (committed request old lm ≤ lm.maximum_index)
unfolding uint64_min
committed_between request old lm le = (ground arith, ground arith)

pub record Advanced (n n' : Node) : Type 0 where
  pub term : n.context.current_term ≤ n'.context.current_term
  pub commit : n.context.commit_index ≤ n'.context.commit_index
  pub known : n'.context.commit_index ≤ n'.log_entry_in_memory.maximum_index

module _ (codec : Codec) where
  -- If the node is not dead and its commit index is at most its last index, then whatever
  -- AppendEntries answers, neither the term nor the commit index goes down, and the commit index
  -- is at most the last index again.
  pub append_entries_service-Advanced :
      (now : ℕ) (request : AppendEntriesRequest) (n : Node)
      → is_dead n.context.node_state ≡ false
      → n.context.commit_index ≤ n.log_entry_in_memory.maximum_index
      → Advanced n (append_entries_service codec now request n).1
  append_entries_service-Advanced now request n alive le =
      elim (append_entries_service-Answered codec now request n alive) [
        | refused x h ↦ record {
          term = omega (arith, h.term);
          commit = omega (arith, h.commit);
          known = omega (arith, h.commit, ap (λ lm. lm.maximum_index) h.log);
        }
        | stored es _ up term _ _ log commit ↦
            let lm = (insert_valid_entry_list es n.log_entry_in_memory).1 in
            let grows = maximum_index-insert_list_grows es n.log_entry_in_memory in
            let between = committed_between request n.context.commit_index lm (omega arith) in
            record {
              term = omega (arith, term);
              commit = omega (arith, commit, between.0);
              known = omega (arith, commit, between.1, ap (λ m. m.maximum_index) log);
            }
      ]
