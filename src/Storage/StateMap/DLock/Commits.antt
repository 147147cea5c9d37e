-- ===== src/Storage/StateMap/DLock/Commits.antt =====
-- A range of the log applied to the lock map, at once or in batches.
use raft_based_distributed_l.Exec.{Result}
use raft_based_distributed_l.Storage.StateMap.Batches.{prev_index-update_loop, update_loop_split}
use raft_based_distributed_l.Prelude.{
  ap, ◌∙◌, sym, arith, ◌-◌, ◌^◌, ◌≤◌, suc, ◌<◌, ◌+◌, add64, ◌≡◌, ℕ,
}
use raft_based_distributed_l.Storage.Codec.{Codec}
use raft_based_distributed_l.Storage.LogMemory.{LogMemory}
use raft_based_distributed_l.Storage.StateMap.{ok, StateMap, update_loop}
use raft_based_distributed_l.Storage.StateMap
use raft_based_distributed_l.Storage.StateMap.DLock.{
  update_state_from_log_entry, update_state_from_log_memory, is_map_keyword,
}
use raft_based_distributed_l.Storage.StateMap.DLock.Steps.{update_state_from_log_entry-Advances}

module _ (codec : Codec) (lm : LogMemory) where
  abbrev loop : ℕ → ℕ → StateMap → Result (Unit {0}) × StateMap
  loop rounds i = update_loop (update_state_from_log_entry codec) is_map_keyword rounds lm i

  -- With the guards met, the update is the loop over the indexes from `start` to `last`.
  update_is_loop :
      (sm : StateMap) (start last n : ℕ)
      → 0 < start
      → start ≡ add64 sm.prev_index 1
      → last + 1 ≡ start + suc n
      → last ≤ lm.maximum_index
      → update_state_from_log_memory codec lm start last sm ≡ loop (suc n) start sm
  unfolding update_state_from_log_memory StateMap.update_state_from_log_memory
  update_is_loop sm start last n pos next count top =
      let rounds : last + 1 - start ≡ suc n = omega arith in rw rounds (ground arith)

  -- An applied range ends with the map at its last index.
  pub prev_index-update :
      (sm mid : StateMap) (start last : ℕ)
      → start ≡ sm.prev_index + 1
      → start ≤ last
      → last ≤ lm.maximum_index
      → last + 1 < 2 ^ 64
      → update_state_from_log_memory codec lm start last sm ≡ (ok tt, mid)
      → mid.prev_index ≡ last
  prev_index-update sm mid start last next le top small e =
      let n = last - start in
      let whole = update_is_loop sm start last n (omega arith) (omega arith) (omega arith) top in
      omega (
        arith,
        prev_index-update_loop (update_state_from_log_entry codec) is_map_keyword n lm start sm mid
            (update_state_from_log_entry-Advances codec) (omega arith) (omega arith)
            (sym whole ∙ e),
      )

  -- If a range of log indexes starts behind the last index of the lock map, ends inside the log
  -- and below 2^64 - 1, and its first part is applied with success, then applying the rest to the
  -- result gives what applying the whole range at once gives.
  pub update_in_batches :
      (sm mid : StateMap) (start middle last : ℕ)
      → start ≡ sm.prev_index + 1
      → start ≤ middle
      → middle < last
      → last ≤ lm.maximum_index
      → last + 1 < 2 ^ 64
      → update_state_from_log_memory codec lm start middle sm ≡ (ok tt, mid)
      → update_state_from_log_memory codec lm start last sm
        ≡ update_state_from_log_memory codec lm (middle + 1) last mid
  update_in_batches sm mid start middle last next le lt top small e =
      let n = middle - start in
      let m = last - middle - 1 in
      let first =
        update_is_loop sm start middle n (omega arith) (omega arith) (omega arith) (omega arith) in
      let whole =
        update_is_loop sm start last (n + suc m) (omega arith) (omega arith) (omega arith) top in
      let at = prev_index-update sm mid start middle next le (omega arith) (omega arith) e in
      let second =
        update_is_loop mid (middle + 1) last m (omega arith) (omega arith) (omega arith) top in
      let cut =
        update_loop_split (update_state_from_log_entry codec) is_map_keyword (suc n) (suc m) lm
          start sm mid (omega arith) (sym first ∙ e) in
      let shape : suc (n + suc m) ≡ suc n + suc m = omega arith in
      let place : start + suc n ≡ middle + 1 = omega arith in
      whole
      ∙ ap (λ k. loop k start sm) shape
      ∙ cut
      ∙ ap (λ k. loop (suc m) k mid) place
      ∙ sym second
