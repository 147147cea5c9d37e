-- ===== src/Node/ClientServer/Answers.antt =====
-- What clients are told.

use raft_based_distributed_l.Prelude.{ap}
use raft_based_distributed_l.Storage.LogMemory.TermSearch.{fetch_present}
use raft_based_distributed_l.Storage.LogMemory.{fetch_log_entry}
use raft_based_distributed_l.Storage.LogMemory.Contents.{IsContiguous}
use raft_based_distributed_l.Storage.Codec.{Codec}
use raft_based_distributed_l.Node.State.{Node}
use raft_based_distributed_l.Storage.LogEntry.{LogEntry}
use raft_based_distributed_l.Node.ClientServer.{ChangeResponse, put_tick, put_wait}
use raft_based_distributed_l.Prelude.{
  ltb-false→le, sym, ap, refl, ◌==◌, arith, ltb, Bool-cases, ◌≡◌, ◌≤◌, ◌<◌, List, [], ◌∷◌, true,
  false, inl, inr,
}
use raft_based_distributed_l.Exec.{ok_injective, Result-cases, ok}

-- One of the nodes has committed the entry's index, with an entry of the same term there.
pub data IsCommitted (e : LogEntry) : List Node → Type 0 where
  at_this_tick :
      (n : Node) (ns : List Node) (f : LogEntry)
      → e.entry.index ≤ n.context.commit_index
      → fetch_log_entry n.log_entry_in_memory e.entry.index ≡ ok f
      → f.entry.term ≡ e.entry.term
      → IsCommitted e (n ∷ ns)
  at_a_later_tick : (n : Node) (ns : List Node) → IsCommitted e ns → IsCommitted e (n ∷ ns)

-- What has been committed is in the log.
abbrev pub AllLogged : LogEntry → List Node → Type 0
AllLogged e [] = Unit {0}
AllLogged e (n ∷ ns) =
    (IsContiguous n.log_entry_in_memory
      × (n.context.commit_index ≤ n.log_entry_in_memory.maximum_index))
    × AllLogged e ns

-- If the loop behind a put answers the client without an error, then the answer says committed,
-- and at one of its ticks the commit index of the node was at least the index of the entry that
-- was appended and the log held an entry of the same term there.
pub put_wait-IsCommitted :
    (codec : Codec) (e : LogEntry) (ns : List Node) (r : ChangeResponse)
    → put_wait codec e ns ≡ ok r
    → (r.committed ≡ true) × IsCommitted e ns
unfolding put_wait put_tick
put_wait-IsCommitted codec e [] r h = cc
put_wait-IsCommitted codec e (n ∷ ns) r h =
    elim (Bool-cases (ltb n.context.commit_index e.entry.index)) [
      | inl c ↦
          let h' = rw (c, put_wait, put_tick) at h in
          let (told, seen) = put_wait-IsCommitted codec e ns r h' in
          (told, at_a_later_tick n ns seen)
      | inr c ↦ elim (Result-cases (fetch_log_entry n.log_entry_in_memory e.entry.index)) [
        | inr (x, q) ↦ let h' = rw (c, q, put_wait, put_tick) at h in cc
        | inl (f, q) ↦ elim (Bool-cases (f.entry.term == e.entry.term)) [
          | inr t ↦
              let h' = rw (c, q, t, put_wait, put_tick) at h in
              let (told, seen) = put_wait-IsCommitted codec e ns r h' in
              (told, at_a_later_tick n ns seen)
          | inl t ↦
              let h' = rw (c, q, t, put_wait, put_tick) at h in
              let same = ok_injective (record { committed = true; current_leader = [] }) r h' in
              (
                ap (λ x. x.committed) (sym same),
                at_this_tick n ns f (ltb-false→le _ _ c) q (ground arith),
              )
        ]
      ]
    ]

-- If the index of the appended entry is not 0, the log has no gap and reaches the commit index at
-- every tick, and at one of the ticks before the timer ends the index is committed with an entry
-- of the same term, then the client is told that it is committed.
pub put_wait-answers :
    (codec : Codec) (e : LogEntry) (ns : List Node)
    → 0 < e.entry.index
    → AllLogged e ns
    → IsCommitted e ns
    → put_wait codec e ns ≡ ok (record { committed = true; current_leader = [] })
unfolding put_wait put_tick
put_wait-answers codec e _ pos logged (at_this_tick n ns f c q t) =
    let c' : ltb n.context.commit_index e.entry.index ≡ false = ground arith in
    let t' : (f.entry.term == e.entry.term) ≡ true = ground arith in
    rw (c', q, t', put_wait, put_tick) refl
put_wait-answers codec e _ pos logged (at_a_later_tick n ns seen) =
    let behind = put_wait-answers codec e ns pos logged.1 seen in
    elim (Bool-cases (ltb n.context.commit_index e.entry.index)) [
      | inl c ↦ rw (c, put_wait, put_tick) behind
      | inr c ↦
          let (f, q, _) =
            fetch_present n.log_entry_in_memory e.entry.index logged.0.0 pos
              (let b = logged.0.1 in ground arith) in
          elim (Bool-cases (f.entry.term == e.entry.term)) [
            | inl t ↦ rw (c, q, t, put_wait, put_tick) refl
            | inr t ↦ rw (c, q, t, put_wait, put_tick) behind
          ]
    ]
