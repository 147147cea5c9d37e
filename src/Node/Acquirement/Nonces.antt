-- ===== src/Node/Acquirement/Nonces.antt =====
-- The methods of an acquirement leave its last appended nonce as it is.
use raft_based_distributed_l.Prelude.{
  ◌∙◌, leb, ◌||◌, ◌==◌, ltb, true, false, if◌then◌else◌, zero, suc,
}
use raft_based_distributed_l.Exec.{invalid_sequence, raise, pure, Result-cases}
use raft_based_distributed_l.Storage.Command.{get_as_dlock_info, Command}
use raft_based_distributed_l.Storage.Codec.{Codec}
use raft_based_distributed_l.Exec.{Exec}
use raft_based_distributed_l.Node.Acquirement.{
  find_acquirer, refreshed_command, expired, pending_rounds, DlockAcquirementInfo,
  fetch_first_valid_acquirement, fetch_first, DlockVolatileAcquirement, insert_new_acquirement,
  refresh_fetched, abandon_loop, abandon_expired_acquirement, insert_unless, refresh_acquirement,
}
use raft_based_distributed_l.Prelude.{
  Bool-cases, inr, inl, add32, refl, Option-cases, Bool, suc, ◌≡◌, arith, ℕ, none, some, Option,
}

abbrev KeepsNonce : {A : Type 0} → Exec DlockVolatileAcquirement A → Type 0
KeepsNonce m =
    (dva : DlockVolatileAcquirement) → (m dva).1.last_appended_nonce ≡ dva.last_appended_nonce

abandon_loop_nonce : (rounds i timestamp : ℕ) → KeepsNonce (abandon_loop rounds i timestamp)
unfolding abandon_loop
abandon_loop_nonce zero i timestamp dva = refl
abandon_loop_nonce (suc rounds) i timestamp dva = elim (Option-cases (dva.pending_acquirement i)) [
  | inl q ↦ rw (q, abandon_loop) refl
  | inr (acq, q) ↦ elim (Bool-cases (expired acq timestamp)) [
    | inl y ↦ rw (q, y, abandon_loop) (abandon_loop_nonce rounds (add32 i 1) timestamp _)
    | inr n ↦ rw (q, n, abandon_loop) refl
  ]
]

pub abandon_expired_acquirement_nonce :
    (timestamp : ℕ) → KeepsNonce (abandon_expired_acquirement timestamp)
unfolding abandon_expired_acquirement
abandon_expired_acquirement_nonce timestamp dva =
    abandon_loop_nonce (pending_rounds dva) (add32 dva.last_processed_acquirement 1) timestamp dva

insert_unless_nonce : (o : Option ℕ) (acq : DlockAcquirementInfo) → KeepsNonce (insert_unless o acq)
unfolding insert_unless
insert_unless_nonce none acq dva = refl
insert_unless_nonce (some i) acq dva = refl

refresh_fetched_nonce : (i timestamp : ℕ) → KeepsNonce (refresh_fetched i timestamp)
unfolding refresh_fetched
refresh_fetched_nonce i timestamp dva = ground arith

refresh_checked_nonce :
    (b : Bool) (i timestamp : ℕ)
    → KeepsNonce (if b then raise invalid_sequence else refresh_fetched i timestamp)
refresh_checked_nonce true i timestamp dva = refl
refresh_checked_nonce false i timestamp dva = refresh_fetched_nonce i timestamp dva

pub refresh_acquirement_nonce : (i timestamp : ℕ) → KeepsNonce (refresh_acquirement i timestamp)
unfolding refresh_acquirement
refresh_acquirement_nonce i timestamp dva =
    let k = abandon_expired_acquirement_nonce timestamp dva in
    elim (Result-cases (abandon_expired_acquirement timestamp dva).0) [
      | inr (x, q) ↦ rw q k
      | inl (u, q) ↦ rw q (
          refresh_checked_nonce
            (ltb (abandon_expired_acquirement timestamp dva).1.last_assigned_acquirement i
              || leb i (abandon_expired_acquirement timestamp dva).1.last_processed_acquirement)
            i timestamp (abandon_expired_acquirement timestamp dva).1
          ∙ k)
    ]

module _ (codec : Codec) where
  pub insert_new_acquirement_nonce :
      (command : Command) (timestamp expire : ℕ)
      → KeepsNonce (insert_new_acquirement codec command timestamp expire)
  unfolding insert_new_acquirement
  insert_new_acquirement_nonce command timestamp expire dva =
      let k = abandon_expired_acquirement_nonce timestamp dva in
      let d = (abandon_expired_acquirement timestamp dva).1 in
      elim (Result-cases (abandon_expired_acquirement timestamp dva).0) [
        | inr (x, q) ↦ rw q k
        | inl (u, q) ↦ elim (Result-cases (get_as_dlock_info codec command)) [
          | inr (x, read) ↦ rw (q, read) k
          | inl (info, read) ↦
              elim (Result-cases (
                find_acquirer (pending_rounds d) (add32 d.last_processed_acquirement 1)
                  info.new_owner d.pending_acquirement)) [
                    | inr (x, f) ↦ rw (q, read, f) k
                    | inl (found, f) ↦ rw (q, read, f) (insert_unless_nonce found _ d ∙ k)
                  ]
        ]
      ]

  fetch_first_nonce :
      (pop_tag : Bool) (timestamp : ℕ) → KeepsNonce (fetch_first codec pop_tag timestamp)
  unfolding fetch_first
  fetch_first_nonce pop_tag timestamp dva =
      elim (Option-cases (dva.pending_acquirement (add32 dva.last_processed_acquirement 1))) [
        | inl q ↦ rw (q, fetch_first) refl
        | inr (acq, q) ↦ elim (Result-cases (refreshed_command codec dva timestamp acq.command)) [
          | inl (c, e) ↦ rw (q, e, fetch_first) refl
          | inr (x, e) ↦ rw (q, e, fetch_first) refl
        ]
      ]

  fetch_checked_nonce :
      (b pop_tag : Bool) (timestamp : ℕ)
      → KeepsNonce (if b then pure none else fetch_first codec pop_tag timestamp)
  fetch_checked_nonce true pop_tag timestamp dva = refl
  fetch_checked_nonce false pop_tag timestamp dva = fetch_first_nonce pop_tag timestamp dva

  pub fetch_first_valid_acquirement_nonce :
      (pop_tag : Bool) (timestamp : ℕ)
      → KeepsNonce (fetch_first_valid_acquirement codec pop_tag timestamp)
  unfolding fetch_first_valid_acquirement
  fetch_first_valid_acquirement_nonce pop_tag timestamp dva =
      let k = abandon_expired_acquirement_nonce timestamp dva in
      elim (Result-cases (abandon_expired_acquirement timestamp dva).0) [
        | inr (x, q) ↦ rw q k
        | inl (u, q) ↦ rw q (
            fetch_checked_nonce
              ((abandon_expired_acquirement timestamp dva).1.last_assigned_acquirement
                == (abandon_expired_acquirement timestamp dva).1.last_processed_acquirement)
              pop_tag timestamp (abandon_expired_acquirement timestamp dva).1
            ∙ k)
      ]
