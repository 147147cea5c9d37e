-- ===== src/Node/Acquirement.antt =====
-- node/dlock_acquirement.go: the clients that wait for one lock, numbered in the order of arrival.
-- A loop from `last_processed + 1` to `last_assigned` recurs on the number of its rounds; no sequence
-- number reaches 2 ^ 32 - 1.
pub mod Nonces
pub mod Queue
pub mod Waiting
pub mod Fetch
use raft_based_distributed_l.Prelude.{
  zero, suc, leb, text_eq, ◌||◌, add64, none, some, ltb_i64, ◌==◌, ltb, if◌then◌else◌, suc, Text,
  ◌-◌, Bool, Option, add32, ℕ,
}
use raft_based_distributed_l.Exec.{
  Result, ok, err, Exec, get, put, pure, raise, lift, ◌>>=◌, ◌>>◌, invalid_sequence, info_fetching,
  acquirement_expired,
}
use raft_based_distributed_l.Storage.Codec.{Codec}
use raft_based_distributed_l.Storage.Command.{Command, get_as_dlock_info, set_as_dlock_info}
use raft_based_distributed_l.Storage.LogMemory.{update}

pub record DlockAcquirementInfo : Type 0 where
  pub acquirer : Text
  pub last_refreshed_timestamp : ℕ
  pub expire : ℕ
  pub command : Command

pub record DlockVolatileAcquirement : Type 0 where
  pub lock_name : Text
  pub last_processed_acquirement : ℕ
  pub last_assigned_acquirement : ℕ
  pub last_appended_nonce : ℕ
  pub pending_acquirement : ℕ → Option DlockAcquirementInfo

unfoldable pub new_dlock_volatile_acquirement : Text → ℕ → DlockVolatileAcquirement
new_dlock_volatile_acquirement lock_name last_appended_nonce = record {
  lock_name = lock_name;
  last_processed_acquirement = 0;
  last_assigned_acquirement = 0;
  last_appended_nonce = last_appended_nonce;
  pending_acquirement = λ _. none;
}

unfoldable pub new_dlock_acquirement_info : Text → ℕ → ℕ → Command → DlockAcquirementInfo
new_dlock_acquirement_info acquirer last_refreshed_timestamp expire command = record {
  acquirer = acquirer;
  last_refreshed_timestamp = last_refreshed_timestamp;
  expire = expire;
  command = command;
}

abbrev pub expired : DlockAcquirementInfo → ℕ → Bool
expired acq timestamp = ltb_i64 (add64 acq.last_refreshed_timestamp acq.expire) timestamp

-- The rounds of a loop over the pending sequence numbers.
abbrev pub pending_rounds : DlockVolatileAcquirement → ℕ
pending_rounds dva = dva.last_assigned_acquirement - dva.last_processed_acquirement

unfoldable pub abandon_loop : ℕ → ℕ → ℕ → Exec DlockVolatileAcquirement (Unit {0})
abandon_loop zero i timestamp dva = (ok tt, dva)
abandon_loop (suc rounds) i timestamp dva = elim (dva.pending_acquirement i) [
  | none ↦ (err info_fetching, dva)
  | some acq ↦
      let rest = abandon_loop rounds (add32 i 1) timestamp (record dva {
        pending_acquirement = update dva.pending_acquirement i none;
        last_processed_acquirement = i;
      }) in
      if expired acq timestamp then rest else (ok tt, dva)
]

unfoldable pub abandon_expired_acquirement : ℕ → Exec DlockVolatileAcquirement (Unit {0})
unfolding abandon_loop
abandon_expired_acquirement timestamp dva =
    abandon_loop (pending_rounds dva) (add32 dva.last_processed_acquirement 1) timestamp dva

-- The lookup and the write at the end of a refresh.
unfoldable pub refresh_fetched : ℕ → ℕ → Exec DlockVolatileAcquirement (Unit {0})
refresh_fetched acquire_seq timestamp dva = elim (dva.pending_acquirement acquire_seq) [
  | none ↦ (err info_fetching, dva)
  | some acq ↦ if expired acq timestamp then (err acquirement_expired, dva) else (
    ok tt,
    record dva {
      pending_acquirement =
          update dva.pending_acquirement acquire_seq
            (some (record acq { last_refreshed_timestamp = timestamp }));
    },
  )
]

unfoldable pub refresh_acquirement : ℕ → ℕ → Exec DlockVolatileAcquirement (Unit {0})
unfolding refresh_fetched
refresh_acquirement acquire_seq timestamp = do
  abandon_expired_acquirement timestamp
  dva ← get
  if ltb dva.last_assigned_acquirement acquire_seq || leb acquire_seq dva.last_processed_acquirement
      then raise invalid_sequence
      else refresh_fetched acquire_seq timestamp

-- The search for an acquirer who waits already: its sequence number, if it is found.
unfoldable pub find_acquirer : ℕ → ℕ → Text → (ℕ → Option DlockAcquirementInfo) → Result (Option ℕ)
find_acquirer zero i acquirer pending = ok none
find_acquirer (suc rounds) i acquirer pending = elim (pending i) [
  | none ↦ err info_fetching
  | some acq ↦
      let rest = find_acquirer rounds (add32 i 1) acquirer pending in
      if text_eq acq.acquirer acquirer then ok (some i) else rest
]

unfoldable pub insert_unless : Option ℕ → DlockAcquirementInfo → Exec DlockVolatileAcquirement ℕ
insert_unless (some i) acq dva = (ok i, dva)
insert_unless none acq dva =
    let next = add32 dva.last_assigned_acquirement 1 in
    (
      ok next,
      record dva {
        last_assigned_acquirement = next;
        pending_acquirement = update dva.pending_acquirement next (some acq);
      },
    )

module _ (codec : Codec) where
  unfoldable pub insert_new_acquirement : Command → ℕ → ℕ → Exec DlockVolatileAcquirement ℕ
  unfolding find_acquirer insert_unless new_dlock_acquirement_info
  insert_new_acquirement command timestamp expire = do
    abandon_expired_acquirement timestamp
    info ← lift (get_as_dlock_info codec command)
    dva ← get
    found ← lift (
        find_acquirer (pending_rounds dva) (add32 dva.last_processed_acquirement 1) info.new_owner
          dva.pending_acquirement)
    insert_unless found (new_dlock_acquirement_info info.new_owner timestamp expire command)

  -- The command of the first in the queue, with the timestamp and the next nonce written into it.
  unfoldable pub refreshed_command : DlockVolatileAcquirement → ℕ → Command → Result Command
  refreshed_command dva timestamp command = elim (get_as_dlock_info codec command) [
    | err e ↦ err e
    | ok info ↦
        let (r, command') =
          set_as_dlock_info codec
            (record info { timestamp = timestamp; lock_nonce = add32 dva.last_appended_nonce 1 })
            command in
        elim r [ err e ↦ err e | ok _ ↦ ok command' ]
  ]

  unfoldable pub fetch_first : Bool → ℕ → Exec DlockVolatileAcquirement (Option Command)
  unfolding refreshed_command
  fetch_first pop_tag timestamp dva =
      let i = add32 dva.last_processed_acquirement 1 in
      elim (dva.pending_acquirement i) [
        | none ↦ (err info_fetching, dva)
        | some acq ↦ elim (refreshed_command dva timestamp acq.command) [
          | err e ↦ (err e, dva)
          | ok command ↦ (
            ok (some command),
            record dva {
              pending_acquirement =
                  update dva.pending_acquirement i (some (record acq { command = command }));
              last_processed_acquirement = if pop_tag then i else dva.last_processed_acquirement;
            },
          )
        ]
      ]

  unfoldable pub fetch_first_valid_acquirement :
      Bool → ℕ → Exec DlockVolatileAcquirement (Option Command)
  unfolding fetch_first
  fetch_first_valid_acquirement pop_tag timestamp = do
    abandon_expired_acquirement timestamp
    dva ← get
    if dva.last_assigned_acquirement == dva.last_processed_acquirement
        then pure none
        else fetch_first pop_tag timestamp
