-- ===== src/Node/ClientServer/DLocks.antt =====
-- node/clisrv_server.go: the services for locks.
use raft_based_distributed_l.Node.Replication.{is_leader}
use raft_based_distributed_l.Storage.Command.{new_command_dlock}
use raft_based_distributed_l.Node.Interchange.Release.{query_dlock_acquirement_info, release_dlock}
use raft_based_distributed_l.Node.Interchange.Acquire.{
  acquire_dlock, refresh_acquirement_by_sequence,
}
use raft_based_distributed_l.Storage.StateMap.DLock.{is_dlock_fetch}
use raft_based_distributed_l.Node.State.{Node}
use raft_based_distributed_l.Node.ClientServer.{
  leader_address, on_interchange, locking, Server, Service,
}
use raft_based_distributed_l.Storage.Codec.{DlockState, Codec}
use raft_based_distributed_l.Prelude.{
  ◌==◌, if◌then◌else◌, ltb, not, List, Option, Text, Bool, ℕ, none, some, [], true, false,
}
use raft_based_distributed_l.Exec.{
  go_panic, query_dlock_internal, query_non_existing_dlock, refresh_by_sequence,
  release_non_existing_dlock, release_dlock_internal, Exec, acquire_dlock_internal, Result, Error,
  ok, err, invalid_sequence, info_fetching,
}
use raft_based_distributed_l.Storage.StateMap.DLock
use raft_based_distributed_l.Node.Interchange.{
  ReleaseInfo, error_reserve, no_dlock_exist, already_released, trigger_release_success,
  trigger_release_later,
}

pub record AcquireResponse : Type 0 where
  pub pending : Bool
  pub sequence : ℕ
  pub current_leader : Text
  pub nonce : ℕ

-- A pending number of -1 is `none`.
pub record QueryResponse : Type 0 where
  pub state : DlockState
  pub pending_num : Option ℕ

pub record ReleaseResponse : Type 0 where
  pub released : Bool
  pub current_leader : Text
  pub nonce : ℕ

abbrev pub is_panic : Error → Bool
is_panic go_panic = true
is_panic _ = false

-- The error that a service answers with, unless the call before it has panicked.
abbrev pub unless_panic : Error → Error → Error
unless_panic e x = if is_panic x then go_panic else e

abbrev is_not_pending : Error → Bool
is_not_pending invalid_sequence = true
is_not_pending info_fetching = true
is_not_pending _ = false

-- After a refresh.
unfoldable pub refreshed : ℕ → Result (Bool × ℕ) → Result AcquireResponse
refreshed sequence (ok (success, nonce)) = ok (record {
  pending = not (ltb 0 nonce);
  sequence = sequence;
  current_leader = [];
  nonce = if success then nonce else 0;
})
refreshed sequence (err e) =
    if is_not_pending e
    then ok (record { pending = false; sequence = sequence; current_leader = []; nonce = 0 })
    else err (unless_panic refresh_by_sequence e)

-- After an acquirement.
unfoldable pub acquired : Result (ℕ × ℕ) → Result AcquireResponse
acquired (err e) = err (unless_panic acquire_dlock_internal e)
acquired (ok (sequence, nonce)) =
    if sequence == 0
    then ok (record { pending = false; sequence = 0; current_leader = []; nonce = nonce })
    else ok (record { pending = true; sequence = sequence; current_leader = []; nonce = 0 })

-- What a release leads to: an answer, or another try at the next tick.
pub data Release : Type 0 where
  replies : Result ReleaseResponse → Release
  later : Release

unfoldable pub release_outcome : ReleaseInfo × ℕ → Release
release_outcome (error_reserve, _) = replies (err release_dlock_internal)
release_outcome (no_dlock_exist, _) = replies (err release_non_existing_dlock)
release_outcome (already_released, _) = replies (err release_non_existing_dlock)
release_outcome (trigger_release_success, nonce) =
    replies (ok (record { released = true; current_leader = []; nonce = nonce }))
release_outcome (trigger_release_later, _) = later

-- An error of the interchange leaves the mutex locked.
abbrev pub is_internal : Result (ReleaseInfo × ℕ) → Bool
is_internal (err e) = not (is_panic e)
is_internal (ok (error_reserve, _)) = true
is_internal (ok _) = false

abbrev pub outcome_of : Result (ReleaseInfo × ℕ) → Release
outcome_of (err e) = replies (err (unless_panic release_dlock_internal e))
outcome_of (ok r) = release_outcome r

module _ (codec : Codec) where
  unfoldable pub acquire_new : Text → Text → ℕ → ℕ → Exec Node AcquireResponse
  acquire_new name client_id expire now n =
      elim (new_command_dlock codec 0 name client_id now expire) [
        | err _ ↦ (err acquire_dlock_internal, n)
        | ok command ↦
            let (r, n') = on_interchange (acquire_dlock codec name now command) n in
            (acquired r, n')
      ]

  unfoldable pub refresh_old : Text → Text → ℕ → ℕ → Exec Node AcquireResponse
  refresh_old name client_id sequence now n =
      let (r, n') =
        on_interchange (refresh_acquirement_by_sequence codec name client_id sequence now) n in
      (refreshed sequence r, n')

  unfoldable pub acquire_dlock_step :
      List Text → ℕ → ℕ → Text → Text → ℕ → ℕ → Exec Node AcquireResponse
  acquire_dlock_step cli choice now name client_id expire sequence n =
      let new = acquire_new name client_id expire now n in
      let old = refresh_old name client_id sequence now n in
      if is_leader n.context.node_state
      then if sequence == 0 then new else old
      else elim (leader_address cli choice n) [
        | err e ↦ (err e, n)
        | ok address ↦
            (ok (record { pending = true; sequence = 0; current_leader = address; nonce = 0 }), n)
      ]

  unfoldable pub acquire_dlock_service :
      List Text → ℕ → ℕ → Text → Text → ℕ → ℕ → Service AcquireResponse
  acquire_dlock_service cli choice now name client_id expire sequence =
      locking (acquire_dlock_step cli choice now name client_id expire sequence)

  unfoldable pub query_dlock_step : Text → Exec Node QueryResponse
  query_dlock_step name n = elim (DLock.query_specific_state codec n.state_map_dlock name) [
    | err e ↦ (err (if is_dlock_fetch e then query_non_existing_dlock else query_dlock_internal), n)
    | ok st ↦
        if is_leader n.context.node_state
        then elim n.dlock_interchange [
          | none ↦ (err go_panic, n)
          | some di ↦ (
            ok (record {
              state = st;
              pending_num =
                  query_dlock_acquirement_info name (record { interchange = di; node = n });
            }),
            n,
          )
        ]
        else (ok (record { state = st; pending_num = none }), n)
  ]

  unfoldable pub query_dlock_service : Text → Service QueryResponse
  query_dlock_service name = locking (query_dlock_step name)

  -- The first try.
  unfoldable pub release_dlock_service :
      List Text → ℕ → ℕ → Text → Text → Server → Option (Release × Server)
  release_dlock_service cli choice now name client_id s =
      let (r, n) = on_interchange (release_dlock codec name client_id now) s.node in
      if s.locked
      then none
      else if is_leader s.node.context.node_state
      then some (outcome_of r, record { node = n; locked = is_internal r })
      else elim (leader_address cli choice s.node) [
        | err e ↦ some (replies (err e), record s { locked = true })
        | ok address ↦
            some
              (replies (ok (record { released = false; current_leader = address; nonce = 0 })), s)
      ]

  -- A try at a tick.
  unfoldable pub release_dlock_tick : ℕ → Text → Text → Server → Option (Release × Server)
  release_dlock_tick now name client_id s =
      let (r, n) = on_interchange (release_dlock codec name client_id now) s.node in
      if s.locked then none else some (outcome_of r, record { node = n; locked = false })
