-- ===== src/Node/Interchange/Guards.antt =====
-- When the interchange appends to the log: every path of AcquireDLock and of a refresh.
use raft_based_distributed_l.Node.Interchange.Acquire.{append_granted}
use raft_based_distributed_l.Storage.Command.{get_as_dlock_info, Command}
use raft_based_distributed_l.Storage.LogMemory.{insert_log_entry}
use raft_based_distributed_l.Node.Acquirement.{
  fetch_first_valid_acquirement, DlockVolatileAcquirement,
}
use raft_based_distributed_l.Storage.LogEntry.{new_log_entry_fields, new_log_entry, LogEntry}
use raft_based_distributed_l.Storage.Codec.{DlockState, Codec}
use raft_based_distributed_l.Node.State.{Node}
use raft_based_distributed_l.Node.Interchange.{
  deadline, refresh_found, refresh_specific_dlock, get_nonce, trigger_ae, add_nonce, append_popped,
  pop_for_client, command_dlock, pending_of, insert_entry, Leading, append_command, on_pending,
}
use raft_based_distributed_l.Prelude.{
  ltb-false→le, false, ltb, text_eq, ltb_i64, subst, Bool-cases, ◌≤◌, true, ap, ℕ, refl, inr, inl,
  Option-cases, add64, ◌∙◌, ◌≡◌, Text, none, some, Option,
}
use raft_based_distributed_l.Storage.StateMap.DLock
use raft_based_distributed_l.Exec.{dlock_fetch, err, ok, Result-cases, Exec, ◌>>=◌, ◌>>◌}

-- At most one entry is appended: at the next index, in the current term.
pub data Grown (n n' : Node) : Type 0 where
  same_log : n'.log_entry_in_memory ≡ n.log_entry_in_memory → Grown n n'
  one_more :
      (e : LogEntry)
      → e.entry.term ≡ n.context.current_term
      → e.entry.index ≡ add64 n.log_entry_in_memory.maximum_index 1
      → n'.log_entry_in_memory ≡ (insert_log_entry (some e) n.log_entry_in_memory).1
      → Grown n n'

abbrev LogKept : {A : Type 0} → Exec Leading A → Type 0
LogKept m = (s : Leading) → (m s).1.node.log_entry_in_memory ≡ s.node.log_entry_in_memory

pub Grown-kept :
    (n n' n'' : Node) → Grown n n' → n''.log_entry_in_memory ≡ n'.log_entry_in_memory → Grown n n''
Grown-kept n n' n'' (same_log h) e = same_log (e ∙ h)
Grown-kept n n' n'' (one_more x t i h) e = one_more x t i (e ∙ h)

pub on_pending_node :
    {A : Type 0} (name : Text) (m : Exec DlockVolatileAcquirement A) (s : Leading)
    → (on_pending name m s).1.node ≡ s.node
unfolding on_pending
on_pending_node name m s = elim (Option-cases (pending_of s name)) [
  | inl q ↦ rw (q, on_pending) refl
  | inr (acq, q) ↦ rw (q, on_pending) refl
]

-- A call on the acquirement, and then what may append one entry.
on_pending-Grown :
    {A B : Type 0} (name : Text) (m : Exec DlockVolatileAcquirement A) (f : A → Exec Leading B)
    (s : Leading)
    → ((a : A) (t : Leading) → Grown t.node (f a t).1.node)
    → Grown s.node ((on_pending name m >>= f) s).1.node
on_pending-Grown name m f s h =
    let same = on_pending_node name m s in
    elim (Result-cases (on_pending name m s).0) [
      | inr (x, q) ↦ rw q (same_log (ap (λ n. n.log_entry_in_memory) same))
      | inl (a, q) ↦ rw q (
          subst (λ n. Grown n (f a (on_pending name m s).1).1.node) same
            (h a (on_pending name m s).1))
    ]

counted_kept : (name : Text) → LogKept (on_pending name add_nonce >> trigger_ae)
counted_kept name s = elim (Result-cases (on_pending name add_nonce s).0) [
  | inr (x, q) ↦ rw q (ap (λ n. n.log_entry_in_memory) (on_pending_node name add_nonce s))
  | inl (u, q) ↦ rw q (ap (λ n. n.log_entry_in_memory) (on_pending_node name add_nonce s))
]

signal_kept :
    (name : Text) → LogKept (on_pending name add_nonce >> (trigger_ae >> on_pending name get_nonce))
signal_kept name s = elim (Result-cases (on_pending name add_nonce s).0) [
  | inr (x, q) ↦ rw q (ap (λ n. n.log_entry_in_memory) (on_pending_node name add_nonce s))
  | inl (u, q) ↦ rw q (
      ap (λ n. n.log_entry_in_memory)
        (on_pending_node name get_nonce (trigger_ae (on_pending name add_nonce s).1).1)
      ∙ ap (λ n. n.log_entry_in_memory) (on_pending_node name add_nonce s))
]

module _ (codec : Codec) where
  append_command-Grown :
      (c : Command) (s : Leading) → Grown s.node (append_command codec c s).1.node
  unfolding append_command insert_entry insert_log_entry
  append_command-Grown c s =
      elim (Result-cases (
        new_log_entry codec s.node.context.current_term
          (add64 s.node.log_entry_in_memory.maximum_index 1) (command_dlock c))) [
            | inr (x, q) ↦ rw q (same_log refl)
            | inl (e, q) ↦ rw q (
                one_more e (new_log_entry_fields codec _ _ _ e q).0
                  (new_log_entry_fields codec _ _ _ e q).1 refl)
          ]

  append_popped-Grown :
      (name : Text) (o : Option Command) (s : Leading)
      → Grown s.node (append_popped codec name o s).1.node
  unfolding append_popped
  append_popped-Grown name none s = same_log refl
  append_popped-Grown name (some c) s = elim (Result-cases (append_command codec c s).0) [
    | inr (x, q) ↦ rw q (append_command-Grown c s)
    | inl (u, q) ↦ rw q (
        Grown-kept _ _ _ (append_command-Grown c s) (signal_kept name (append_command codec c s).1))
  ]

  pub append_granted-Grown :
      (name : Text) (c : Command) (s : Leading)
      → Grown s.node (append_granted codec name c s).1.node
  unfolding append_granted
  append_granted-Grown name c s = elim (Result-cases (append_command codec c s).0) [
    | inr (x, q) ↦ rw q (append_command-Grown c s)
    | inl (u, q) ↦ rw q (
        Grown-kept _ _ _ (append_command-Grown c s)
          (counted_kept name (append_command codec c s).1))
  ]

  pop_for_client-Grown :
      (name client_id : Text) (now : ℕ) (o : Option Command) (s : Leading)
      → Grown s.node (pop_for_client codec name client_id now o s).1.node
  unfolding pop_for_client
  pop_for_client-Grown name client_id now none s = same_log refl
  pop_for_client-Grown name client_id now (some c) s =
      elim (Result-cases (get_as_dlock_info codec c)) [
        | inr (x, q) ↦ rw (q, pop_for_client) (same_log refl)
        | inl (info, q) ↦ elim (Bool-cases (text_eq info.new_owner client_id)) [
          | inr n ↦ rw (q, n, pop_for_client) (same_log refl)
          | inl y ↦
              rw (q, y, pop_for_client)
                (on_pending-Grown name (fetch_first_valid_acquirement codec true now)
                  (append_popped codec name) s (append_popped-Grown name))
        ]
      ]

  -- The log keeps its entries, or one is appended: a first one, or one for a lock whose lease is over
  -- and that has no other entry under way.
  pub data Guarded (name : Text) (now : ℕ) (s : Leading) (n : Node) : Type 0 where
    not_appended : n.log_entry_in_memory ≡ s.node.log_entry_in_memory → Guarded name now s n
    lease_over :
        (st : DlockState) (acq : DlockVolatileAcquirement)
        → DLock.query_specific_state codec s.node.state_map_dlock name ≡ ok st
        → pending_of s name ≡ some acq
        → acq.last_appended_nonce ≤ st.lock_nonce
        → ltb_i64 now (deadline st) ≡ false
        → Grown s.node n
        → Guarded name now s n
    first_entry :
        DLock.query_specific_state codec s.node.state_map_dlock name ≡ err dlock_fetch
        → pending_of s name ≡ none
        → Grown s.node n
        → Guarded name now s n

  refresh_found-Grown :
      (name client_id : Text) (now : ℕ) (acq : DlockVolatileAcquirement) (st : DlockState)
      (s : Leading)
      → pending_of s name ≡ some acq
      → DLock.query_specific_state codec s.node.state_map_dlock name ≡ ok st
      → Guarded name now s (refresh_found codec name client_id now acq st s).1.node
  unfolding refresh_found
  refresh_found-Grown name client_id now acq st s a k =
      elim (Bool-cases (ltb_i64 now (deadline st))) [
        | inl y ↦ rw y (not_appended refl)
        | inr n ↦ elim (Bool-cases (ltb st.lock_nonce acq.last_appended_nonce)) [
          | inl y ↦ rw (n, y) (not_appended refl)
          | inr m ↦
              rw (n, m)
                (lease_over st acq k a (ltb-false→le _ _ m) n (
                  on_pending-Grown name (fetch_first_valid_acquirement codec false now)
                    (pop_for_client codec name client_id now) s
                    (pop_for_client-Grown name client_id now)))
        ]
      ]

  -- A refresh of a lock leaves the log as it is, or appends at most one entry, in the current
  -- term at the next index, and only if the lease of the lock is over and no entry of it is
  -- appended beyond its committed nonce.
  pub refresh_specific_dlock-Guarded :
      (name client_id : Text) (now : ℕ) (s : Leading)
      → Guarded name now s (refresh_specific_dlock codec name client_id now s).1.node
  unfolding refresh_specific_dlock
  refresh_specific_dlock-Guarded name client_id now s = elim (Option-cases (pending_of s name)) [
    | inl q ↦ rw (q, refresh_specific_dlock) (not_appended refl)
    | inr (acq, q) ↦
        elim (Result-cases (DLock.query_specific_state codec s.node.state_map_dlock name)) [
          | inr (x, k) ↦ rw (q, k, refresh_specific_dlock) (not_appended refl)
          | inl (st, k) ↦
              rw (q, k, refresh_specific_dlock)
                (refresh_found-Grown name client_id now acq st s q k)
        ]
  ]
