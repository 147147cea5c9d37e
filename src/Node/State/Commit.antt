-- ===== src/Node/State/Commit.antt =====
-- A map that a refused entry has stopped stays as it is for ever.
use raft_based_distributed_l.Prelude.{
  refl, ◌∙◌, ap, ◌≤◌, ◌^◌, ◌<◌, ℕ, [], ◌∷◌, List, All, arith, max, ◌≢◌, add64, ◌≡◌,
}
use raft_based_distributed_l.Storage.Codec.{Codec}
use raft_based_distributed_l.Storage.StateMap
use raft_based_distributed_l.Storage.StateMap.DLock
use raft_based_distributed_l.Storage.StateMap.KvStore
use raft_based_distributed_l.Node.State.{with_context, Node, commit_procedure}

module _ (codec : Codec) where
  -- If the index behind the last applied one is not the index behind the last one of the lock
  -- map, a commit leaves the lock map as it is.
  pub commit_procedure-behind :
      (n : Node)
      → add64 n.context.last_applied_index 1 ≢ add64 n.state_map_dlock.prev_index 1
      → (commit_procedure codec n).state_map_dlock ≡ n.state_map_dlock
  unfolding commit_procedure DLock.update_state_from_log_memory
      StateMap.update_state_from_log_memory
  commit_procedure-behind n off = ground arith

  -- The same for the key-value map.
  pub commit_procedure-behind_kv :
      (n : Node)
      → add64 n.context.last_applied_index 1 ≢ add64 n.state_map_kv_store.prev_index 1
      → (commit_procedure codec n).state_map_kv_store ≡ n.state_map_kv_store
  unfolding commit_procedure KvStore.update_state_from_log_memory
      StateMap.update_state_from_log_memory
  commit_procedure-behind_kv n off = ground arith

  -- After a commit the applied index is the commit index, if that was ahead.
  pub last_applied_index-commit_procedure :
      (n : Node)
      → (commit_procedure codec n).context.last_applied_index
        ≡ max n.context.last_applied_index n.context.commit_index
  unfolding commit_procedure
  last_applied_index-commit_procedure n = ground arith

  -- The commit index is raised, and the entries up to it are applied.
  abbrev pub commit_to : ℕ → Node → Node
  commit_to index n =
      commit_procedure codec (with_context (λ nc. record nc { commit_index = index }) n)

  unfoldable pub commit_all : List ℕ → Node → Node
  commit_all [] n = n
  commit_all (index ∷ indexes) n = commit_all indexes (commit_to index n)

  -- If the last index of the lock map is below the last applied index of the node, then whatever
  -- commit indexes below 2^64 are set and committed one after another, the lock map stays as it
  -- is for ever, while the last applied index does not go down.
  pub commit_all-behind :
      (indexes : List ℕ) (n : Node)
      → All (λ index. index < 2 ^ 64) indexes
      → n.state_map_dlock.prev_index < n.context.last_applied_index
      → n.context.last_applied_index < 2 ^ 64
      → ((commit_all indexes n).state_map_dlock ≡ n.state_map_dlock)
        × (n.context.last_applied_index ≤ (commit_all indexes n).context.last_applied_index)
  unfolding commit_all
  commit_all-behind [] n small behind la = (refl, omega arith)
  commit_all-behind (index ∷ indexes) n small behind la =
      let m = with_context (λ nc. record nc { commit_index = index }) n in
      let same = commit_procedure-behind m (omega arith) in
      let applied = last_applied_index-commit_procedure m in
      let rest =
        commit_all-behind indexes (commit_to index n) small.1
          (omega (arith, ap (λ sm. sm.prev_index) same, applied))
          (omega (arith, small.0, applied)) in
      (rest.0 ∙ same, omega (arith, rest.1, applied))
