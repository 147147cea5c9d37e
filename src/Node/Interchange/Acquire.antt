-- ===== src/Node/Interchange/Acquire.antt =====
-- AcquireDLock and RefreshAcquirementBySequence. The command that AcquireDLock sets anew is not
-- handed back: the caller drops it.
use raft_based_distributed_l.Storage.StateMap.DLock.{is_dlock_fetch}
use raft_based_distributed_l.Exec.{
  acquire_unexpected, ok, err, put, lift, get, empty_acquirement, ◌>>◌, ◌>>=◌, raise, pure, Result,
  Exec,
}
use raft_based_distributed_l.Prelude.{
  true, if◌then◌else◌, not, add32, some, ltb_i64, ◌||◌, false, ◌&&◌, ◌^◌, ◌==◌, ltb, ◌%◌, ◌*◌,
  Option, Bool, ℕ, Text,
}
use raft_based_distributed_l.Storage.Command.{get_as_dlock_info, set_as_dlock_info, Command}
use raft_based_distributed_l.Node.Acquirement.{
  refresh_acquirement, new_dlock_volatile_acquirement, abandon_expired_acquirement,
  insert_new_acquirement, DlockVolatileAcquirement,
}
use raft_based_distributed_l.Storage.Codec.{LockInfo, DlockState, Codec}
use raft_based_distributed_l.Node.Interchange.{
  get_nonce, deadline, set_pending, pending_of, trigger_ae, commit, add_nonce, append_command,
  on_pending, refresh_specific_dlock, Leading,
}
use raft_based_distributed_l.Prelude.{none, some, Option}
use raft_based_distributed_l.Storage.StateMap.DLock

-- AcquirementExpire, in milliseconds, as a duration in nanoseconds
abbrev pub acquirement_timeout : Leading → ℕ
acquirement_timeout s = s.node.config.acquirement_expire * 1000000 % 2 ^ 64

-- Nobody waits, no entry of the lock is under way, and its lease is over.
abbrev pub is_idle : DlockVolatileAcquirement → DlockState → ℕ → Bool
is_idle acq st now =
    acq.last_appended_nonce == st.lock_nonce
    && (acq.last_processed_acquirement == acq.last_assigned_acquirement
        && ltb_i64 (deadline st) now)

abbrev pub is_busy : DlockVolatileAcquirement → DlockState → ℕ → Bool
is_busy acq st now =
    ltb st.lock_nonce acq.last_appended_nonce
    || (ltb acq.last_processed_acquirement acq.last_assigned_acquirement
        || not (ltb_i64 (deadline st) now))

module _ (codec : Codec) where
  unfoldable pub with_info : Command → LockInfo → Result Command
  with_info command info =
      let (r, command') = set_as_dlock_info codec info command in
      elim r [ err e ↦ err e | ok _ ↦ ok command' ]

  -- The acquirement joins the waiting ones.
  unfoldable pub join : Text → ℕ → Command → Exec Leading ℕ
  unfolding on_pending
  join name now command = do
    s ← get
    on_pending name (insert_new_acquirement codec command now (acquirement_timeout s))

  unfoldable pub append_granted : Text → Command → Exec Leading (Unit {0})
  unfolding on_pending append_command
  append_granted name command = do
    append_command codec command
    on_pending name add_nonce
    trigger_ae

  -- case1: no entry of the lock is committed.
  unfoldable pub acquire_first :
      Text → ℕ → Command → Option DlockVolatileAcquirement → Exec Leading (ℕ × ℕ)
  unfolding append_granted join
  acquire_first name now command none = do
    s ← get
    put (set_pending name (new_dlock_volatile_acquirement name 0) s)
    append_granted name command
    nonce ← on_pending name get_nonce
    pure (0, nonce)
  acquire_first name now command (some acq) = do
    sequence ← join name now command
    pure (sequence, 0)

  -- case2: the entry is appended at once.
  unfoldable pub acquire_idle : Text → ℕ → Command → LockInfo → DlockState → Exec Leading (ℕ × ℕ)
  unfolding append_granted with_info
  acquire_idle name now command info st = do
    command' ←
        lift
          (with_info command (record info { lock_nonce = add32 st.lock_nonce 1; timestamp = now }))
    append_granted name command'
    pure (0, add32 st.lock_nonce 1)

  -- case3: the acquirement waits, and the first one that waits may be served.
  unfoldable pub acquire_busy : Text → ℕ → Command → LockInfo → Exec Leading (ℕ × ℕ)
  unfolding join refresh_specific_dlock
  acquire_busy name now command info = do
    sequence ← join name now command
    nonce ← refresh_specific_dlock codec name info.new_owner now
    pure (sequence, 0)

  unfoldable pub acquire_known :
      Text
      → ℕ
      → Command
      → LockInfo
      → DlockState
      → Option DlockVolatileAcquirement
      → Exec Leading (ℕ × ℕ)
  unfolding acquire_idle acquire_busy
  acquire_known name now command info st none = raise empty_acquirement
  acquire_known name now command info st (some acq) =
      if is_idle acq st now
      then acquire_idle name now command info st
      else if is_busy acq st now
      then acquire_busy name now command info
      else raise acquire_unexpected

  -- After the commit, with the information that the command carries. On a state that does not
  -- decode the source returns the error of another call, which is nil.
  unfoldable pub acquire_decided : Text → ℕ → Command → LockInfo → Exec Leading (ℕ × ℕ)
  unfolding acquire_first acquire_known with_info
  acquire_decided name now command info s =
      elim (DLock.query_specific_state codec s.node.state_map_dlock name) [
        | err e ↦
            if is_dlock_fetch e
            then (do
              command' ← lift (with_info command (record info { lock_nonce = 1; timestamp = now }))
              acquire_first name now command' (pending_of s name))
                s
            else (ok (0, 0), s)
        | ok st ↦ acquire_known name now command info st (pending_of s name) s
      ]

  unfoldable pub acquire_dlock : Text → ℕ → Command → Exec Leading (ℕ × ℕ)
  unfolding acquire_decided
  acquire_dlock name now command = do
    commit codec
    info ← lift (get_as_dlock_info codec command)
    acquire_decided name now command info

  unfoldable pub refresh_acquirement_known :
      Text → Text → ℕ → ℕ → Option DlockVolatileAcquirement → Exec Leading (Bool × ℕ)
  unfolding on_pending refresh_specific_dlock
  refresh_acquirement_known name client_id sequence now none = pure (false, 0)
  refresh_acquirement_known name client_id sequence now (some acq) = do
    on_pending name (abandon_expired_acquirement now)
    on_pending name (refresh_acquirement sequence now)
    nonce ← refresh_specific_dlock codec name client_id now
    pure (true, nonce)

  unfoldable pub refresh_acquirement_by_sequence : Text → Text → ℕ → ℕ → Exec Leading (Bool × ℕ)
  unfolding refresh_acquirement_known
  refresh_acquirement_by_sequence name client_id sequence now = do
    commit codec
    s ← get
    refresh_acquirement_known name client_id sequence now (pending_of s name)
