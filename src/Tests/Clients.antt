-- ===== src/Tests/Clients.antt =====
-- What clients are told.

use raft_based_distributed_l.Node.ClientServer.Puts.{put_state_kv-Putting, Putting}
use raft_based_distributed_l.Tests.JsonLike.{json_like-IsCodec, json_like}
use raft_based_distributed_l.Tests.Samples.{
  bob, alice, lock, info_of, two_entries, node_in, entry_of,
}
use raft_based_distributed_l.Storage.LogEntry.{LogEntry}
use raft_based_distributed_l.Node.ClientServer.Answers.{
  at_this_tick, put_wait-IsCommitted, IsCommitted, put_wait-answers,
}
use raft_based_distributed_l.Node.State.{Node}
use raft_based_distributed_l.Storage.LogMemory.{fetch_log_entry}
use raft_based_distributed_l.Node.ClientServer.{put_state_kv, put_tick, put_wait}
use raft_based_distributed_l.Storage.LogMemory.Contents.{IsContiguous}
use raft_based_distributed_l.Prelude.{
  inr, refl, inl, ◌==◌, Bool-cases, ◌≡◌, arith, none, [], ◌∷◌, true,
}
use raft_based_distributed_l.Exec.{ok}
use raft_based_distributed_l.Node.Context.{leader}

abbrev written_entry : LogEntry
written_entry = entry_of 1 1 (info_of 1 alice 5 10)

abbrev has_committed : Node
has_committed = node_in leader two_entries

put_wait-IsCommitted_example : (true ≡ true) × IsCommitted written_entry (has_committed ∷ [])
unfolding put_wait put_tick fetch_log_entry
put_wait-IsCommitted_example =
    put_wait-IsCommitted json_like written_entry (has_committed ∷ [])
      (record { committed = true; current_leader = [] }) refl

two_entries-IsContiguous : IsContiguous two_entries
two_entries-IsContiguous = record {
  valid = record { indexed = λ i e h. ground arith; bounded = λ i e h. ground arith };
  present = λ i pos top. elim (Bool-cases (i == 1)) [
    | inl q ↦ (entry_of 1 1 (info_of 1 alice 5 10), ground arith)
    | inr q ↦ (entry_of 2 2 (info_of 2 bob 20 10), ground arith)
  ];
}

put_wait-answers_example :
    put_wait json_like written_entry (has_committed ∷ [])
    ≡ ok (record { committed = true; current_leader = [] })
unfolding fetch_log_entry
put_wait-answers_example =
    put_wait-answers json_like written_entry (has_committed ∷ []) (omega arith)
      ((two_entries-IsContiguous, omega arith), tt)
      (at_this_tick has_committed [] written_entry (omega arith) refl refl)

put_state_kv-Putting_example :
    Putting json_like [] 0 lock none has_committed
      (put_state_kv json_like [] 0 lock none has_committed)
put_state_kv-Putting_example =
    put_state_kv-Putting json_like [] 0 lock none has_committed json_like-IsCodec
