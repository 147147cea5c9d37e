-- ===== src/Node/Interchange/Grants.antt =====
-- AcquireDLock appends an entry only when the lock is free to be granted.
use raft_based_distributed_l.Node.Acquirement.Nonces.{insert_new_acquirement_nonce}
use raft_based_distributed_l.Storage.Command.{get_as_dlock_info, Command}
use raft_based_distributed_l.Node.State.{Node}
use raft_based_distributed_l.Node.Interchange.Acquire.{
  acquirement_timeout, is_busy, acquire_known, acquire_busy, acquire_dlock, acquire_decided, join,
  append_granted, with_info, is_idle, acquire_idle, acquire_first,
}
use raft_based_distributed_l.Storage.StateMap.DLock.{is_dlock_fetch}
use raft_based_distributed_l.Storage.Codec.{LockInfo, DlockState, Codec}
use raft_based_distributed_l.Node.Acquirement.{
  insert_new_acquirement, new_dlock_volatile_acquirement, DlockVolatileAcquirement,
}
use raft_based_distributed_l.Prelude.{
  Bool-cases, inl, inr, add32, sym, refl, false, subst, ltb_i64, ap, ◌∙◌, ◌≤◌, arith, ℕ, true, ◌≡◌,
  Text, none, some, Option,
}
use raft_based_distributed_l.Dict
use raft_based_distributed_l.Storage.StateMap.DLock
use raft_based_distributed_l.Exec.{Result-cases, err, ok, Exec, dlock_fetch, Error}
use raft_based_distributed_l.Node.Interchange.Guards.{
  refresh_specific_dlock-Guarded, Grown-kept, on_pending_node, append_granted-Grown, same_log,
  Grown, Guarded, not_appended, lease_over, first_entry,
}
use raft_based_distributed_l.Node.Interchange.{
  refresh_specific_dlock, commit, get_nonce, set_pending, deadline, pending_of, on_pending, Leading,
}

is_dlock_fetch_sound : (x : Error) → is_dlock_fetch x ≡ true → x ≡ dlock_fetch
is_dlock_fetch_sound x h = ground arith

on_pending_acquirement :
    {A : Type 0} (name : Text) (m : Exec DlockVolatileAcquirement A) (s : Leading)
    (acq : DlockVolatileAcquirement)
    → pending_of s name ≡ some acq
    → pending_of (on_pending name m s).1 name ≡ some (m acq).1
unfolding on_pending
on_pending_acquirement name m s acq h =
    rw (h, on_pending) (Dict.lookup-insert_self name (m acq).1 s.interchange.pending_acquire)

idle_nonce :
    (acq : DlockVolatileAcquirement) (st : DlockState) (now : ℕ)
    → is_idle acq st now ≡ true
    → (acq.last_appended_nonce ≤ st.lock_nonce) × (ltb_i64 now (deadline st) ≡ false)
idle_nonce acq st now h = (ground arith, ground arith)

abbrev nonce_of : Option DlockVolatileAcquirement → ℕ
nonce_of none = 0
nonce_of (some acq) = acq.last_appended_nonce

module _ (codec : Codec) where
  -- What is guarded behind a call on the acquirement is guarded before it.
  Guarded-on_pending :
      (name : Text) (now : ℕ) (s t : Leading) (acq acq' : DlockVolatileAcquirement) (n : Node)
      → pending_of s name ≡ some acq
      → t.node ≡ s.node
      → pending_of t name ≡ some acq'
      → acq'.last_appended_nonce ≡ acq.last_appended_nonce
      → Guarded codec name now t n
      → Guarded codec name now s n
  Guarded-on_pending name now s t acq acq' n p same p' nonce (not_appended h) =
      not_appended (h ∙ ap (λ m. m.log_entry_in_memory) same)
  Guarded-on_pending name now s t acq acq' n p same p' nonce (lease_over st x q a le over g) =
      let alike : acq'.last_appended_nonce ≡ x.last_appended_nonce = ap nonce_of (sym p' ∙ a) in
      lease_over st acq
        (subst (λ m. DLock.query_specific_state codec m.state_map_dlock name ≡ ok st) same q) p
        (omega arith) over (subst (λ m. Grown m n) same g)
  Guarded-on_pending name now s t acq acq' n p same p' nonce (first_entry q a g) = cc

  acquire_idle-Grown :
      (name : Text) (now : ℕ) (c : Command) (info : LockInfo) (st : DlockState) (s : Leading)
      → Grown s.node (acquire_idle codec name now c info st s).1.node
  unfolding acquire_idle
  acquire_idle-Grown name now c info st s =
      elim (Result-cases
        (with_info codec c (record info { lock_nonce = add32 st.lock_nonce 1; timestamp = now }))) [
          | inr (x, q) ↦ rw (q, acquire_idle) (same_log refl)
          | inl (c', q) ↦ elim (Result-cases (append_granted codec name c' s).0) [
            | inr (x, g) ↦ rw (q, g, acquire_idle) (append_granted-Grown codec name c' s)
            | inl (u, g) ↦ rw (q, g, acquire_idle) (append_granted-Grown codec name c' s)
          ]
        ]

  acquire_new-Grown :
      (name : Text) (now : ℕ) (c : Command) (s : Leading)
      → Grown s.node (acquire_first codec name now c none s).1.node
  unfolding acquire_first
  acquire_new-Grown name now c s =
      let s' = set_pending name (new_dlock_volatile_acquirement name 0) s in
      let t = (append_granted codec name c s').1 in
      let grown = append_granted-Grown codec name c s' in
      let same = ap (λ n. n.log_entry_in_memory) (on_pending_node name get_nonce t) in
      elim (Result-cases (append_granted codec name c s').0) [
        | inr (x, g) ↦ rw (g, acquire_first) grown
        | inl (u, g) ↦ elim (Result-cases (on_pending name get_nonce t).0) [
          | inr (x, h) ↦ rw (g, h, acquire_first) (Grown-kept _ _ _ grown same)
          | inl (nonce, h) ↦ rw (g, h, acquire_first) (Grown-kept _ _ _ grown same)
        ]
      ]

  acquire_busy-Guarded :
      (name : Text) (now : ℕ) (c : Command) (info : LockInfo) (acq : DlockVolatileAcquirement)
      (s : Leading)
      → pending_of s name ≡ some acq
      → Guarded codec name now s (acquire_busy codec name now c info s).1.node
  unfolding acquire_busy join
  acquire_busy-Guarded name now c info acq s p =
      let m = insert_new_acquirement codec c now (acquirement_timeout s) in
      let t = (on_pending name m s).1 in
      let same = on_pending_node name m s in
      let later : Guarded codec name now s
          (refresh_specific_dlock codec name info.new_owner now t).1.node =
        Guarded-on_pending name now s t acq (m acq).1 _ p same
          (on_pending_acquirement name m s acq p)
          (insert_new_acquirement_nonce codec c now (acquirement_timeout s) acq)
          (refresh_specific_dlock-Guarded codec name info.new_owner now t) in
      elim (Result-cases (on_pending name m s).0) [
        | inr (x, g) ↦ rw g (not_appended (ap (λ n. n.log_entry_in_memory) same))
        | inl (i, g) ↦
            elim (Result-cases (refresh_specific_dlock codec name info.new_owner now t).0) [
              | inr (x, h) ↦ rw (g, h) later
              | inl (u, h) ↦ rw (g, h) later
            ]
      ]

  acquire_known-Guarded :
      (name : Text) (now : ℕ) (c : Command) (info : LockInfo) (st : DlockState) (s : Leading)
      → DLock.query_specific_state codec s.node.state_map_dlock name ≡ ok st
      → (p : Option DlockVolatileAcquirement) → pending_of s name ≡ p
      → Guarded codec name now s (acquire_known codec name now c info st p s).1.node
  unfolding acquire_known
  acquire_known-Guarded name now c info st s q none p = not_appended refl
  acquire_known-Guarded name now c info st s q (some acq) p =
      elim (Bool-cases (is_idle acq st now)) [
        | inl y ↦ rw y (
            lease_over st acq q p (idle_nonce acq st now y).0 (idle_nonce acq st now y).1
              (acquire_idle-Grown name now c info st s))
        | inr n ↦ elim (Bool-cases (is_busy acq st now)) [
          | inl y ↦ rw (n, y) (acquire_busy-Guarded name now c info acq s p)
          | inr m ↦ rw (n, m) (not_appended refl)
        ]
      ]

  acquire_first-Guarded :
      (name : Text) (now : ℕ) (c : Command) (s : Leading)
      → DLock.query_specific_state codec s.node.state_map_dlock name ≡ err dlock_fetch
      → (p : Option DlockVolatileAcquirement) → pending_of s name ≡ p
      → Guarded codec name now s (acquire_first codec name now c p s).1.node
  unfolding acquire_first join
  acquire_first-Guarded name now c s q none p = first_entry q p (acquire_new-Grown name now c s)
  acquire_first-Guarded name now c s q (some acq) p =
      let m = insert_new_acquirement codec c now (acquirement_timeout s) in
      let same = on_pending_node name m s in
      elim (Result-cases (on_pending name m s).0) [
        | inr (x, g) ↦ rw g (not_appended (ap (λ n. n.log_entry_in_memory) same))
        | inl (i, g) ↦ rw g (not_appended (ap (λ n. n.log_entry_in_memory) same))
      ]

  acquire_decided-Guarded :
      (name : Text) (now : ℕ) (c : Command) (info : LockInfo) (s : Leading)
      → Guarded codec name now s (acquire_decided codec name now c info s).1.node
  unfolding acquire_decided
  acquire_decided-Guarded name now c info s =
      elim (Result-cases (DLock.query_specific_state codec s.node.state_map_dlock name)) [
        | inl (st, q) ↦
            rw (q, acquire_decided)
              (acquire_known-Guarded name now c info st s q (pending_of s name) refl)
        | inr (x, q) ↦ elim (Bool-cases (is_dlock_fetch x)) [
          | inr n ↦ rw (q, n, acquire_decided) (not_appended refl)
          | inl y ↦
              elim (Result-cases
                (with_info codec c (record info { lock_nonce = 1; timestamp = now }))) [
                  | inr (e, w) ↦ rw (q, y, w, acquire_decided) (not_appended refl)
                  | inl (c', w) ↦
                      rw (q, y, w, acquire_decided)
                        (acquire_first-Guarded name now c' s (q ∙ ap err (is_dlock_fetch_sound x y))
                          (pending_of s name) refl)
                ]
        ]
      ]

  -- AcquireDLock leaves the log as it is, or appends at most one entry, in the current term at
  -- the next index, and then for one of two reasons: the lock has no committed state and no
  -- acquirement, or its lease is over and no entry of it is appended beyond its committed nonce.
  -- All this is said of the state after the committed entries are applied.
  pub acquire_dlock-Guarded :
      (name : Text) (now : ℕ) (c : Command) (s : Leading)
      → Guarded codec name now (commit codec s).1 (acquire_dlock codec name now c s).1.node
  unfolding acquire_dlock
  acquire_dlock-Guarded name now c s = elim (Result-cases (get_as_dlock_info codec c)) [
    | inr (x, q) ↦ rw q (not_appended refl)
    | inl (info, q) ↦ rw q (acquire_decided-Guarded name now c info (commit codec s).1)
  ]
