-- ===== src/Tests/Locks.antt =====
-- Acquirements, and what the leader does with requests for a lock.
use raft_based_distributed_l.Node.Interchange.Grants.{acquire_dlock-Guarded}
use raft_based_distributed_l.Exec.{ok}
use raft_based_distributed_l.Node.Interchange.Acquire.{acquire_dlock}
use raft_based_distributed_l.Node.State.Commit.{commit_all, commit_all-behind}
use raft_based_distributed_l.Node.Interchange.{refresh_specific_dlock, commit}
use raft_based_distributed_l.Node.Acquirement.{
  fetch_first_valid_acquirement, insert_new_acquirement, new_dlock_acquirement_info,
}
use raft_based_distributed_l.Tests.JsonLike.{json_like-IsCodec, json_like}
use raft_based_distributed_l.Storage.Command.{get_as_dlock_info}
use raft_based_distributed_l.Node.Acquirement.Waiting.{insert_new_acquirement-Joined, Joined}
use raft_based_distributed_l.Node.Acquirement.Fetch.{fetch_first_valid_acquirement-Fetched, Fetched}
use raft_based_distributed_l.Node.Interchange.Release.{
  release_dlock-Released, release_dlock, Released,
}
use raft_based_distributed_l.Node.Interchange.Guards.{refresh_specific_dlock-Guarded, Guarded}
use raft_based_distributed_l.Tests.Samples.{
  bob, leading, info_of, context_in, alice, two_entries, lock_map, lock, command_of, bob_waits,
  node_in, waiting_bob,
}
use raft_based_distributed_l.Node.State.{Node}
use raft_based_distributed_l.Prelude.{◌≤◌, refl, true, arith, [], ◌∷◌, ◌≡◌}
use raft_based_distributed_l.Node.Context.{follower}
use raft_based_distributed_l.Node.Acquirement.Queue.{Queue}

-- bob asks at 20, when alice's lease is over.
acquire_dlock-Guarded_example :
    Guarded json_like lock 20
      (commit json_like leading).1
      (acquire_dlock json_like lock 20 (command_of (info_of 0 bob 0 10)) leading).1.node
acquire_dlock-Guarded_example =
    acquire_dlock-Guarded json_like lock 20 (command_of (info_of 0 bob 0 10)) leading

refresh_specific_dlock-Guarded_example :
    Guarded json_like lock 20 leading (refresh_specific_dlock json_like lock bob 20 leading).1.node
refresh_specific_dlock-Guarded_example =
    refresh_specific_dlock-Guarded json_like lock bob 20 leading

-- alice releases at 9.
release_dlock-Released_example :
    Released json_like lock alice 9
      (commit json_like leading).1
      (release_dlock json_like lock alice 9 leading)
release_dlock-Released_example =
    release_dlock-Released json_like json_like-IsCodec lock alice 9 leading

waiting_bob-Queue : Queue waiting_bob (bob_waits ∷ [])
waiting_bob-Queue = record { held = (refl, tt); count = refl; small = omega arith }

alice_asks :
    get_as_dlock_info json_like (command_of (info_of 0 alice 0 10)) ≡ ok (info_of 0 alice 0 10)
unfolding get_as_dlock_info
alice_asks = refl

bob_asks : get_as_dlock_info json_like (command_of (info_of 0 bob 0 10)) ≡ ok (info_of 0 bob 0 10)
unfolding get_as_dlock_info
bob_asks = refl

insert_new_acquirement-Joined_example :
    Joined 1
      (bob_waits ∷ [])
      (new_dlock_acquirement_info alice 7 100 (command_of (info_of 0 alice 0 10)))
      (insert_new_acquirement json_like (command_of (info_of 0 alice 0 10)) 7 100 waiting_bob)
insert_new_acquirement-Joined_example =
    insert_new_acquirement-Joined json_like waiting_bob (bob_waits ∷ [])
      (command_of (info_of 0 alice 0 10)) (info_of 0 alice 0 10) 7 100 waiting_bob-Queue
      (omega arith) alice_asks

fetch_first_valid_acquirement-Fetched_example :
    Fetched json_like true 20 waiting_bob bob_waits []
      (info_of 0 bob 0 10)
      (fetch_first_valid_acquirement json_like true 20 waiting_bob)
fetch_first_valid_acquirement-Fetched_example =
    fetch_first_valid_acquirement-Fetched json_like json_like-IsCodec true 20 waiting_bob
      (bob_waits ∷ []) bob_waits [] (info_of 0 bob 0 10) waiting_bob-Queue refl bob_asks

-- A node that counts an entry as applied which its lock map does not have.
abbrev stuck : Node
stuck = record (node_in follower two_entries) {
  context = record (context_in follower) { last_applied_index = 2; commit_index = 3 };
}

commit_all-behind_example :
    ((commit_all json_like (3 ∷ 4 ∷ []) stuck).state_map_dlock ≡ lock_map)
    × (2 ≤ (commit_all json_like (3 ∷ 4 ∷ []) stuck).context.last_applied_index)
commit_all-behind_example =
    commit_all-behind json_like (3 ∷ 4 ∷ []) stuck (omega arith, (omega arith, tt)) (omega arith)
      (omega arith)
