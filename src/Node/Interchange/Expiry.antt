-- ===== src/Node/Interchange/Expiry.antt =====
-- node/dlock_interchange.go: the release of the locks that have expired, when the node becomes a
-- leader and from time to time. The order in which the loop visits the names of the lock map is an
-- argument.
pub mod Keeps
pub mod Scans
use raft_based_distributed_l.Node.Replication.{is_leader}
use raft_based_distributed_l.Node.Acquirement.{
  new_dlock_volatile_acquirement, abandon_expired_acquirement,
}
use raft_based_distributed_l.Storage.LogMemory.{insert_valid_entry_list}
use raft_based_distributed_l.Storage.Command.{dlock_keyword, get_as_dlock_info}
use raft_based_distributed_l.Node.State.{Node}
use raft_based_distributed_l.Storage.LogEntry.{LogEntry}
use raft_based_distributed_l.Node.Interchange.{
  trigger_ae, deadline, get_nonce, construct_log_entry_by_items, add_nonce, set_pending, pending_of,
  commit, on_pending, Leading,
}
use raft_based_distributed_l.Storage.Codec.{Codec, DlockState}
use raft_based_distributed_l.Prelude.{
  ◌++◌, text_eq, add64, ◌&&◌, add32, ◌==◌, ltb_i64, length, not, ltb, Bool, if◌then◌else◌, Text,
  List, ℕ, none, some, [], ◌∷◌, true, false,
}
use raft_based_distributed_l.Exec.{pure, Result, Exec, ok, err, ◌>>=◌, ◌>>◌}
use raft_based_distributed_l.Dict
use raft_based_distributed_l.Storage.StateMap.DLock
use raft_based_distributed_l.Node.Context.{NodeState}

-- A lock without an acquirement gets one.
unfoldable pub track : DlockState → Exec Leading (Unit {0})
track st s = elim (pending_of s st.lock_name) [
  | some _ ↦ (ok tt, s)
  | none ↦ (
    ok tt,
    set_pending st.lock_name (new_dlock_volatile_acquirement st.lock_name st.lock_nonce) s,
  )
]

unfoldable pub insert_entries : List LogEntry → Exec Leading (Unit {0})
insert_entries es s =
    let (r, lm) = insert_valid_entry_list es s.node.log_entry_in_memory in
    (r, record s { node = record s.node { log_entry_in_memory = lm } })

module _ (codec : Codec) where
  -- The entry that releases a lock, behind `entries`.
  unfoldable pub release_entry : ℕ → DlockState → List LogEntry → Node → Result LogEntry
  release_entry now st entries n =
      construct_log_entry_by_items codec (add32 st.lock_nonce 1) st.lock_name [] now 0
        n.context.current_term
        (add64 (add64 n.log_entry_in_memory.maximum_index (length entries)) 1)

  -- The end of the loop's body, with the last appended nonce of the lock.
  unfoldable pub release_if_expired :
      ℕ → DlockState → List LogEntry → ℕ → Exec Leading (List LogEntry)
  release_if_expired now st entries nonce s =
      if ltb st.lock_nonce nonce
      then (ok entries, s)
      else if ltb_i64 (deadline st) now && not (text_eq st.owner [])
      then elim (release_entry now st entries s.node) [
        | err e ↦ (err e, s)
        | ok entry ↦ (ok (entries ++ entry ∷ []), s)
      ]
      else (ok entries, s)

  unfoldable pub scan_found : ℕ → List LogEntry → DlockState → Exec Leading (List LogEntry)
  scan_found now entries st =
      track st
      >> (on_pending st.lock_name (abandon_expired_acquirement now)
          >> (on_pending st.lock_name get_nonce >>= release_if_expired now st entries))

  unfoldable pub scan_loop : ℕ → List Text → List LogEntry → Exec Leading (List LogEntry)
  scan_loop now [] entries s = (ok entries, s)
  scan_loop now (name ∷ names) entries s =
      elim (DLock.query_specific_state codec s.node.state_map_dlock name) [
        | err e ↦ (err e, s)
        | ok st ↦ (scan_found now entries st >>= scan_loop now names) s
      ]

  -- LastAppendedNonce += 1, for each of the entries.
  unfoldable pub count_entries : List LogEntry → Exec Leading (Unit {0})
  count_entries [] s = (ok tt, s)
  count_entries (e ∷ es) s =
      elim (get_as_dlock_info codec
        (record { command_name = dlock_keyword; command_content = e.entry.command_content })) [
          | err x ↦ (err x, s)
          | ok info ↦ (on_pending info.lock_name add_nonce >> count_entries es) s
        ]

  unfoldable pub append_releases : List LogEntry → Exec Leading (Unit {0})
  append_releases es =
      insert_entries es >> (count_entries es >> (if length es == 0 then pure tt else trigger_ae))

  unfoldable pub scan_dlock_state_map : ℕ → List Text → Exec Leading (Unit {0})
  scan_dlock_state_map now names = scan_loop now names [] >>= append_releases

  unfoldable pub init_from_dlock_state_map : ℕ → List Text → Exec Leading (Unit {0})
  init_from_dlock_state_map now names = commit codec >> scan_dlock_state_map now names

  -- A tick of ReleaseExpiredDLockPeriodically, and whether it goes on.
  unfoldable pub release_expired_tick : ℕ → List Text → Leading → Bool × Leading
  release_expired_tick now names s =
      if not (s.node.context.current_term == s.interchange.leader_term)
      then (false, s)
      else if not (is_leader s.node.context.node_state)
      then (false, s)
      else elim ((commit codec >> scan_dlock_state_map now names) s).0 [
        | ok _ ↦ (true, ((commit codec >> scan_dlock_state_map now names) s).1)
        | err _ ↦ (false, ((commit codec >> scan_dlock_state_map now names) s).1)
      ]
