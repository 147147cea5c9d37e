-- ===== src/Node/Interchange/Expiry/Keeps.antt =====
-- What the steps of a scan leave of the node as it is.
use raft_based_distributed_l.Node.Interchange.Guards.{on_pending_node}
use raft_based_distributed_l.Storage.LogMemory.{insert_valid_entry_list, LogMemory}
use raft_based_distributed_l.Node.Context.{trigger_ae_channel}
use raft_based_distributed_l.Node.Interchange.{
  deadline, trigger_ae, get_nonce, pending_of, add_nonce, on_pending, Leading,
}
use raft_based_distributed_l.Storage.LogEntry.{LogEntry}
use raft_based_distributed_l.Node.Acquirement.{
  abandon_expired_acquirement, DlockVolatileAcquirement,
}
use raft_based_distributed_l.Storage.Codec.{DlockState, Codec}
use raft_based_distributed_l.Node.State.{with_context, Node}
use raft_based_distributed_l.Prelude.{
  text_eq, not, ◌&&◌, ltb_i64, ltb, Bool-cases, ◌==◌, refl, length, if◌then◌else◌, ◌∙◌,
  Option-cases, ap, ◌≡◌, ℕ, Text, List, [], ◌∷◌, true, false, inl, inr,
}
use raft_based_distributed_l.Exec.{pure, continue, Result-cases, Exec, ok, err, ◌>>=◌, ◌>>◌}
use raft_based_distributed_l.Storage.Command.{get_as_dlock_info, dlock_keyword, Command}
use raft_based_distributed_l.Storage.StateMap.DLock
use raft_based_distributed_l.Node.Interchange.Expiry.{
  release_entry, scan_found, append_releases, count_entries, scan_dlock_state_map, scan_loop,
  release_if_expired, track, insert_entries,
}

pub track_node : (st : DlockState) (s : Leading) → (track st s).1.node ≡ s.node
unfolding track
track_node st s = elim (Option-cases (pending_of s st.lock_name)) [
  | inl q ↦ rw (q, track) refl
  | inr (a, q) ↦ rw (q, track) refl
]

module _ {X : Type 0} (f : Node → X) where
  -- A part of the node that no run changes.
  abbrev pub Keeps : {A : Type 0} → Exec Leading A → Type 0
  Keeps m = (s : Leading) → f (m s).1.node ≡ f s.node

  pub then-Keeps :
      {A B : Type 0} (m : Exec Leading A) (k : A → Exec Leading B)
      → Keeps m
      → ((a : A) → Keeps (k a))
      → Keeps (m >>= k)
  then-Keeps m k h h' s = elim (m s).0 as (λ r. f (continue r k (m s).1).1.node ≡ f s.node) [
    | ok a ↦ h' a (m s).1 ∙ h s
    | err _ ↦ h s
  ]

  pub on_pending-Keeps :
      {A : Type 0} (name : Text) (m : Exec DlockVolatileAcquirement A) → Keeps (on_pending name m)
  on_pending-Keeps name m s = ap f (on_pending_node name m s)

  pub count_entries-Keeps : (codec : Codec) (es : List LogEntry) → Keeps (count_entries codec es)
  unfolding count_entries
  count_entries-Keeps codec [] s = refl
  count_entries-Keeps codec (e ∷ es) s =
      let command : Command = record {
        command_name = dlock_keyword;
        command_content = e.entry.command_content;
      } in
      elim (Result-cases (get_as_dlock_info codec command)) [
        | inr (x, q) ↦ rw (q, count_entries) refl
        | inl (info, q) ↦
            rw (q, count_entries)
              (then-Keeps (on_pending info.lock_name add_nonce) (λ _. count_entries codec es)
                (on_pending-Keeps info.lock_name add_nonce) (λ _. count_entries-Keeps codec es) s)
      ]

  release_if_expired-Keeps :
      (codec : Codec) (now : ℕ) (st : DlockState) (es : List LogEntry) (nonce : ℕ)
      → Keeps (release_if_expired codec now st es nonce)
  unfolding release_if_expired
  release_if_expired-Keeps codec now st es nonce s = elim (Bool-cases (ltb st.lock_nonce nonce)) [
    | inl a ↦ rw (a, release_if_expired) refl
    | inr a ↦ elim (Bool-cases (ltb_i64 (deadline st) now && not (text_eq st.owner []))) [
      | inr b ↦ rw (a, b, release_if_expired) refl
      | inl b ↦ elim (Result-cases (release_entry codec now st es s.node)) [
        | inl (e, q) ↦ rw (a, b, q, release_if_expired) refl
        | inr (x, q) ↦ rw (a, b, q, release_if_expired) refl
      ]
    ]
  ]

  scan_loop-Keeps :
      (codec : Codec) (now : ℕ) (names : List Text) (es : List LogEntry)
      → Keeps (scan_loop codec now names es)
  unfolding scan_loop scan_found
  scan_loop-Keeps codec now [] es s = refl
  scan_loop-Keeps codec now (name ∷ names) es s =
      elim (Result-cases (DLock.query_specific_state codec s.node.state_map_dlock name)) [
        | inr (x, q) ↦ rw (q, scan_loop) refl
        | inl (st, q) ↦
            rw (q, scan_loop)
              (then-Keeps (scan_found codec now es st) (scan_loop codec now names)
                (then-Keeps (track st) _ (λ t. ap f (track_node st t))
                  (λ _.
                    then-Keeps (on_pending st.lock_name (abandon_expired_acquirement now)) _
                      (on_pending-Keeps st.lock_name (abandon_expired_acquirement now))
                      (λ _.
                        then-Keeps (on_pending st.lock_name get_nonce)
                          (release_if_expired codec now st es)
                          (on_pending-Keeps st.lock_name get_nonce)
                          (λ nonce. release_if_expired-Keeps codec now st es nonce))))
                (λ es'. scan_loop-Keeps codec now names es') s)
      ]

  trigger-Keeps :
      (es : List LogEntry)
      → ((n : Node) → f (with_context trigger_ae_channel n) ≡ f n)
      → Keeps (if length es == 0 then pure tt else trigger_ae)
  trigger-Keeps es h s =
      elim (length es == 0) as (λ b. f ((if b then pure tt else trigger_ae) s).1.node ≡ f s.node) [
        | true ↦ refl
        | false ↦ h s.node
      ]

  -- The end of the scan, behind the insertion.
  pub counting-Keeps :
      (codec : Codec) (es : List LogEntry)
      → ((n : Node) → f (with_context trigger_ae_channel n) ≡ f n)
      → Keeps (count_entries codec es >> (if length es == 0 then pure tt else trigger_ae))
  counting-Keeps codec es h =
      then-Keeps (count_entries codec es) _ (count_entries-Keeps codec es) (λ _. trigger-Keeps es h)

  pub scan_dlock_state_map-Keeps :
      (codec : Codec) (now : ℕ) (names : List Text)
      → ((n : Node) → f (with_context trigger_ae_channel n) ≡ f n)
      → ((n : Node) (lm : LogMemory) → f (record n { log_entry_in_memory = lm }) ≡ f n)
      → Keeps (scan_dlock_state_map codec now names)
  unfolding scan_dlock_state_map append_releases insert_entries
  scan_dlock_state_map-Keeps codec now names h k =
      then-Keeps (scan_loop codec now names []) (append_releases codec)
        (scan_loop-Keeps codec now names [])
        (λ es.
          then-Keeps (insert_entries es) _
            (λ s. k s.node (insert_valid_entry_list es s.node.log_entry_in_memory).1)
            (λ _. counting-Keeps codec es h))
