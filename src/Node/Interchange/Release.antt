-- ===== src/Node/Interchange/Release.antt =====
-- ReleaseDLock and QueryDLockAcquirementInfo, and what they answer.
use raft_based_distributed_l.Node.Context.{trigger_ae_channel}
use raft_based_distributed_l.Node.Interchange.Append.{new_log_entry-IsEntry, appended, IsEntry}
use raft_based_distributed_l.Storage.LogEntry.{LogEntry}
use raft_based_distributed_l.Storage.LogMemory.{insert_log_entry}
use raft_based_distributed_l.Storage.Command.{dlock_keyword, get_as_dlock_info, new_command_dlock}
use raft_based_distributed_l.Prelude.{
  ltb-false→le, text_eq→eq, refl, inr, inl, arith, Bool-cases, ◌≤◌, false, true, Bool, ◌≡◌, add64,
  [], add32, ltb, text_eq, if◌then◌else◌, sub32, Option, Text, none, some, ℕ,
}
use raft_based_distributed_l.Exec.{
  Result-cases, Result, lift, get, ◌>>◌, ◌>>=◌, pure, empty_acquirement, raise, ok, err, Exec,
}
use raft_based_distributed_l.Dict
use raft_based_distributed_l.Storage.Codec.{Codec, IsCodec, DlockState, LockInfo}
use raft_based_distributed_l.Storage.StateMap.DLock.{is_dlock_fetch}
use raft_based_distributed_l.Storage.StateMap.DLock
use raft_based_distributed_l.Node.Acquirement.{DlockVolatileAcquirement}
use raft_based_distributed_l.Node.Interchange.{
  Leading, ReleaseInfo, no_dlock_exist, trigger_release_later, already_released,
  trigger_release_success, pending_of, on_pending, insert_entry, construct_log_entry_by_items,
  add_nonce, trigger_ae, commit,
}

-- No lock in the map: it may be that its first entry is appended only.
unfoldable pub release_unknown : Option DlockVolatileAcquirement → ReleaseInfo
release_unknown none = no_dlock_exist
release_unknown (some acq) =
    if ltb 0 acq.last_appended_nonce then trigger_release_later else no_dlock_exist

module _ (codec : Codec) where
  -- The release of a lock that the applicant holds, with no entry of the lock under way.
  unfoldable pub release_held : Text → DlockState → ℕ → Exec Leading (ReleaseInfo × ℕ)
  unfolding on_pending
  release_held name st now = do
    s ← get
    e ← lift (
        construct_log_entry_by_items codec (add32 st.lock_nonce 1) st.lock_name [] now 0
          s.node.context.current_term (add64 s.node.log_entry_in_memory.maximum_index 1))
    insert_entry codec e
    on_pending name add_nonce
    trigger_ae
    pure (trigger_release_success, add32 st.lock_nonce 1)

  unfoldable pub release_committed :
      Text
      → Text
      → ℕ
      → DlockState
      → Option DlockVolatileAcquirement
      → Exec Leading (ReleaseInfo × ℕ)
  unfolding release_held
  release_committed name applicant now st none =
      if text_eq st.owner applicant then raise empty_acquirement else pure (already_released, 0)
  release_committed name applicant now st (some acq) =
      if text_eq st.owner applicant
      then if ltb st.lock_nonce acq.last_appended_nonce
        then pure (trigger_release_later, 0)
        else release_held name st now
      else pure (already_released, 0)

  -- After the commit. An error answers with `ErrorReserve`, which the callers treat alike.
  unfoldable pub release_decided : Text → Text → ℕ → Exec Leading (ReleaseInfo × ℕ)
  unfolding release_unknown release_committed
  release_decided name applicant now s =
      elim (DLock.query_specific_state codec s.node.state_map_dlock name) [
        | err e ↦
            if is_dlock_fetch e
            then (ok (release_unknown (pending_of s name), 0), s)
            else (err e, s)
        | ok st ↦ release_committed name applicant now st (pending_of s name) s
      ]

  unfoldable pub release_dlock : Text → Text → ℕ → Exec Leading (ReleaseInfo × ℕ)
  unfolding release_decided
  release_dlock name applicant now = do commit codec; release_decided name applicant now

-- The number of the pending acquirements, or `none` for -1.
unfoldable pub query_dlock_acquirement_info : Text → Leading → Option ℕ
query_dlock_acquirement_info name s = elim (pending_of s name) [
  | none ↦ none
  | some acq ↦ some (sub32 acq.last_assigned_acquirement acq.last_processed_acquirement)
]

abbrev is_success : Result (ReleaseInfo × ℕ) → Bool
is_success (ok (trigger_release_success, _)) = true
is_success _ = false

-- The entry that frees a lock.
abbrev pub freeing : DlockState → ℕ → LockInfo
freeing st now = record {
  lock_nonce = add32 st.lock_nonce 1;
  lock_name = st.lock_name;
  new_owner = [];
  timestamp = now;
  expire = 0;
}

module _ (codec : Codec) where
  -- A release is either refused with nothing changed, or frees a lock that the applicant owns.
  pub data Released (name applicant : Text) (now : ℕ) (s : Leading)
      (r : Result (ReleaseInfo × ℕ) × Leading) : Type 0 where
    refused :
        (x : Result (ReleaseInfo × ℕ))
        → is_success x ≡ false
        → r ≡ (x, s)
        → Released name applicant now s r
    released :
        (st : DlockState) (acq : DlockVolatileAcquirement) (e : LogEntry)
        → DLock.query_specific_state codec s.node.state_map_dlock name ≡ ok st
        → pending_of s name ≡ some acq
        → st.owner ≡ applicant
        → acq.last_appended_nonce ≤ st.lock_nonce
        → IsEntry codec s.node.context.current_term
            (add64 s.node.log_entry_in_memory.maximum_index 1)
            (freeing st now)
            e
        → r ≡ (ok (trigger_release_success, add32 st.lock_nonce 1), appended name acq e s)
        → Released name applicant now s r

  pub construct-IsEntry :
      (laws : IsCodec codec) (st : DlockState) (now term index : ℕ)
      → (e : LogEntry) × (construct_log_entry_by_items codec
            (add32 st.lock_nonce 1)
            st.lock_name
            []
            now
            0
            term
            index
          ≡ ok e)
        × IsEntry codec term index (freeing st now) e
  unfolding construct_log_entry_by_items new_command_dlock get_as_dlock_info
  construct-IsEntry laws st now term index =
      let (b, encoded, decoded) = laws.lock_info (freeing st now) in
      let (e, made, entry) =
        new_log_entry-IsEntry codec term index
          (record { command_name = dlock_keyword; command_content = b }) (freeing st now) refl
          (rw decoded) in
      (e, rw (encoded, construct_log_entry_by_items, new_command_dlock, made), entry)

  release_held-appended :
      (laws : IsCodec codec) (name : Text) (st : DlockState) (now : ℕ)
      (acq : DlockVolatileAcquirement) (s : Leading)
      → pending_of s name ≡ some acq
      → (e : LogEntry) × IsEntry codec s.node.context.current_term
          (add64 s.node.log_entry_in_memory.maximum_index 1)
          (freeing st now)
          e
        × (release_held codec name st now s
            ≡ (ok (trigger_release_success, add32 st.lock_nonce 1), appended name acq e s))
  unfolding release_held on_pending insert_entry insert_log_entry Dict.lookup Dict.insert
      trigger_ae_channel
  release_held-appended laws name st now acq s h =
      let (e, made, entry) =
        construct-IsEntry laws st now s.node.context.current_term
          (add64 s.node.log_entry_in_memory.maximum_index 1) in
      (e, entry, rw (made, h))

  release_committed-Released :
      (laws : IsCodec codec) (name applicant : Text) (now : ℕ) (st : DlockState) (s : Leading)
      → DLock.query_specific_state codec s.node.state_map_dlock name ≡ ok st
      → (p : Option DlockVolatileAcquirement) → pending_of s name ≡ p
      → Released name applicant now s (release_committed codec name applicant now st p s)
  unfolding release_committed
  release_committed-Released laws name applicant now st s q none h =
      elim (Bool-cases (text_eq st.owner applicant)) [
        | inl y ↦ refused (err empty_acquirement) refl (rw y)
        | inr n ↦ refused (ok (already_released, 0)) refl (rw n)
      ]
  release_committed-Released laws name applicant now st s q (some acq) h =
      elim (Bool-cases (text_eq st.owner applicant)) [
        | inl y ↦ elim (Bool-cases (ltb st.lock_nonce acq.last_appended_nonce)) [
          | inl l ↦ refused (ok (trigger_release_later, 0)) refl (rw (y, l))
          | inr l ↦
              let (e, entry, held) = release_held-appended laws name st now acq s h in
              released st acq e q h (text_eq→eq _ _ y) (ltb-false→le _ _ l) entry (rw (y, l, held))
        ]
        | inr n ↦ refused (ok (already_released, 0)) refl (rw n)
      ]

  release_unknown_refused :
      (p : Option DlockVolatileAcquirement) → is_success (ok (release_unknown p, 0)) ≡ false
  unfolding release_unknown
  release_unknown_refused p = ground arith

  release_decided-Released :
      (laws : IsCodec codec) (name applicant : Text) (now : ℕ) (s : Leading)
      → Released name applicant now s (release_decided codec name applicant now s)
  unfolding release_decided
  release_decided-Released laws name applicant now s =
      elim (Result-cases (DLock.query_specific_state codec s.node.state_map_dlock name)) [
        | inl (st, q) ↦
            rw (q, release_decided)
              (release_committed-Released laws name applicant now st s q (pending_of s name) refl)
        | inr (x, q) ↦ elim (Bool-cases (is_dlock_fetch x)) [
          | inl y ↦
              refused (ok (release_unknown (pending_of s name), 0))
                (release_unknown_refused (pending_of s name)) (rw (q, y, release_decided))
          | inr n ↦ refused (err x) refl (rw (q, n, release_decided))
        ]
      ]

  -- If the codec keeps its laws, ReleaseDLock, after the committed entries are applied, either
  -- answers without success and changes nothing more, or answers with success and the next nonce:
  -- then the applicant owns the lock, no entry of it is appended beyond its committed nonce, and
  -- one entry is appended at the next index in the current term that carries the next nonce and
  -- no owner; the appended nonce of the lock is counted up and the sender of entries is
  -- signalled.
  pub release_dlock-Released :
      (laws : IsCodec codec) (name applicant : Text) (now : ℕ) (s : Leading)
      → Released name applicant now (commit codec s).1 (release_dlock codec name applicant now s)
  unfolding release_dlock
  release_dlock-Released laws name applicant now s =
      release_decided-Released laws name applicant now (commit codec s).1
