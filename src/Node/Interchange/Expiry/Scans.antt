-- ===== src/Node/Interchange/Expiry/Scans.antt =====
-- What a scan of the lock map appends to the log.
use raft_based_distributed_l.Node.Interchange.Expiry.Keeps.{counting-Keeps, track_node}
use raft_based_distributed_l.Node.Interchange.Release.{freeing, construct-IsEntry}
use raft_based_distributed_l.Node.Interchange.Append.{IsEntry}
use raft_based_distributed_l.Node.Interchange.Guards.{on_pending_node}
use raft_based_distributed_l.Node.Acquirement.{abandon_expired_acquirement}
use raft_based_distributed_l.Storage.LogEntry.{LogEntry}
use raft_based_distributed_l.Storage.LogMemory.{insert_valid_entry_list, LogMemory}
use raft_based_distributed_l.Node.Interchange.{trigger_ae, get_nonce, deadline, on_pending, Leading}
use raft_based_distributed_l.Node.Interchange.Expiry.{
  insert_entries, append_releases, scan_dlock_state_map, release_entry, scan_loop, scan_found,
  release_if_expired, count_entries, track,
}
use raft_based_distributed_l.Storage.Codec.{IsCodec, DlockState, Codec}
use raft_based_distributed_l.Node.State.{Node}
use raft_based_distributed_l.Prelude.{
  text_eq_refl, ◌==◌, if◌then◌else◌, ap, sym, ◌++◌, length, add64, ◌∙◌, ◌≢◌, text_eq, subst, ltb,
  Bool-cases, ltb_i64, refl, Text, ◌≡◌, List, ℕ, [], ◌∷◌, true, inl, inr,
}
use raft_based_distributed_l.Exec.{pure, Result-cases, continue, Exec, Result, ok, err, ◌>>=◌, ◌>>◌}
use raft_based_distributed_l.Storage.StateMap.DLock

abbrev Good : {A : Type 0} → (A → Type 0) → Result A → Type 0
Good P (ok a) = P a
Good P (err _) = Unit {0}

-- An answer of a kind, with the node as it was.
abbrev Yields : {A : Type 0} → (A → Type 0) → Node → Result A × Leading → Type 0
Yields P n r = Good P r.0 × (r.1.node ≡ n)

abbrev Anything : {A : Type 0} → A → Type 0
Anything _ = Unit {0}

then-Yields :
    {A B : Type 0} (P : A → Type 0) (Q : B → Type 0) (n : Node) (m : Exec Leading A)
    (f : A → Exec Leading B) (s : Leading)
    → Yields P n (m s)
    → ((a : A) (t : Leading) → P a → t.node ≡ n → Yields Q n (f a t))
    → Yields Q n ((m >>= f) s)
then-Yields P Q n m f s h k =
    elim (m s).0 as (λ r. Good P r → Yields Q n (continue r f (m s).1)) [
      | ok a ↦ λ good. k a (m s).1 good h.1
      | err _ ↦ λ _. (tt, h.1)
    ]
      h.0

kept-Yields : {A : Type 0} (n : Node) (r : Result A × Leading) → r.1.node ≡ n → Yields Anything n r
kept-Yields n r h = (elim r.0 as (λ x. Good Anything x) [ ok _ ↦ tt | err _ ↦ tt ], h)

module _ (codec : Codec) where
  -- Entries that each free a lock of the node's map that has an owner and has expired, at the next
  -- indexes of the log and in the current term.
  pub data Releases (now : ℕ) (n : Node) : List LogEntry → Type 0 where
    nothing : Releases now n []
    one_more :
        (es : List LogEntry) (e : LogEntry) (name : Text) (st : DlockState)
        → Releases now n es
        → DLock.query_specific_state codec n.state_map_dlock name ≡ ok st
        → ltb_i64 (deadline st) now ≡ true
        → st.owner ≢ []
        → IsEntry codec n.context.current_term
            (add64 (add64 n.log_entry_in_memory.maximum_index (length es)) 1)
            (freeing st now)
            e
        → Releases now n (es ++ e ∷ [])

  release_if_expired-Yields :
      (laws : IsCodec codec) (now nonce : ℕ) (name : Text) (st : DlockState) (es : List LogEntry)
      (s : Leading)
      → DLock.query_specific_state codec s.node.state_map_dlock name ≡ ok st
      → Releases now s.node es
      → Yields (Releases now s.node) s.node (release_if_expired codec now st es nonce s)
  unfolding release_if_expired release_entry
  release_if_expired-Yields laws now nonce name st es s q r =
      elim (Bool-cases (ltb st.lock_nonce nonce)) [
        | inl f ↦ rw (f, release_if_expired) (r, refl)
        | inr f ↦ elim (Bool-cases (ltb_i64 (deadline st) now)) [
          | inr x ↦ rw (f, x, release_if_expired) (r, refl)
          | inl x ↦ elim (Bool-cases (text_eq st.owner [])) [
            | inl o ↦ rw (f, x, o, release_if_expired) (r, refl)
            | inr o ↦
                let (e, made, entry) =
                  construct-IsEntry codec laws st now s.node.context.current_term
                    (add64 (add64 s.node.log_entry_in_memory.maximum_index (length es)) 1) in
                rw (f, x, o, release_if_expired, made, release_entry)
                  (
                    one_more es e name st r q x
                        (λ z.
                          let w : text_eq st.owner [] ≡ true =
                            subst (λ t. text_eq t [] ≡ true) (sym z) (text_eq_refl []) in
                          cc)
                        entry,
                    refl,
                  )
          ]
        ]
      ]

  scan_found-Yields :
      (laws : IsCodec codec) (now : ℕ) (name : Text) (st : DlockState) (es : List LogEntry)
      (s : Leading)
      → DLock.query_specific_state codec s.node.state_map_dlock name ≡ ok st
      → Releases now s.node es
      → Yields (Releases now s.node) s.node (scan_found codec now es st s)
  unfolding scan_found
  scan_found-Yields laws now name st es s q r =
      let n = s.node in
      let abandon = abandon_expired_acquirement now in
      then-Yields Anything (Releases now n) n (track st) _ s
        (kept-Yields n (track st s) (track_node st s))
        (λ _ t _ h.
          then-Yields Anything (Releases now n) n (on_pending st.lock_name abandon) _ t
            (kept-Yields n (on_pending st.lock_name abandon t)
              (on_pending_node st.lock_name abandon t ∙ h))
            (λ _ u _ h'.
              then-Yields Anything (Releases now n) n (on_pending st.lock_name get_nonce)
                (release_if_expired codec now st es) u
                (kept-Yields n (on_pending st.lock_name get_nonce u)
                  (on_pending_node st.lock_name get_nonce u ∙ h'))
                (λ nonce v _ h''.
                  subst
                    (λ x.
                      DLock.query_specific_state codec x.state_map_dlock name ≡ ok st
                      → Releases now x es
                      → Yields (Releases now x) x (release_if_expired codec now st es nonce v))
                    h'' (release_if_expired-Yields laws now nonce name st es v) q r)))

  scan_loop-Yields :
      (laws : IsCodec codec) (now : ℕ) (names : List Text) (es : List LogEntry) (s : Leading)
      → Releases now s.node es
      → Yields (Releases now s.node) s.node (scan_loop codec now names es s)
  unfolding scan_loop
  scan_loop-Yields laws now [] es s r = (r, refl)
  scan_loop-Yields laws now (name ∷ names) es s r =
      elim (Result-cases (DLock.query_specific_state codec s.node.state_map_dlock name)) [
        | inr (x, q) ↦ rw (q, scan_loop) (tt, refl)
        | inl (st, q) ↦
            rw (q, scan_loop)
              (then-Yields (Releases now s.node) (Releases now s.node) s.node
                (scan_found codec now es st) (scan_loop codec now names) s
                (scan_found-Yields laws now name st es s q r)
                (λ es' t r' h.
                  subst
                    (λ x.
                      Releases now x es'
                      → Yields (Releases now x) x (scan_loop codec now names es' t))
                    h (scan_loop-Yields laws now names es' t) r'))
      ]

  -- What a scan leaves of the log.
  pub data Releasing (now : ℕ) (n : Node) : LogMemory → Type 0 where
    not_appended : Releasing now n n.log_entry_in_memory
    appended_all :
        (es : List LogEntry)
        → Releases now n es
        → Releasing now n (insert_valid_entry_list es n.log_entry_in_memory).1

  append_releases_log :
      (es : List LogEntry) (s : Leading)
      → (append_releases codec es s).1.node.log_entry_in_memory
        ≡ (insert_valid_entry_list es s.node.log_entry_in_memory).1
  unfolding append_releases insert_entries
  append_releases_log es s =
      let t = (insert_entries es s).1 in
      let rest = count_entries codec es >> (if length es == 0 then pure tt else trigger_ae) in
      elim (insert_entries es s).0
        as (λ r.
          (continue r (λ _. rest) t).1.node.log_entry_in_memory ≡ t.node.log_entry_in_memory) [
            | err _ ↦ refl
            | ok _ ↦ counting-Keeps (λ n. n.log_entry_in_memory) codec es (λ n. refl) t
          ]

  -- If the codec keeps its laws, a scan of the lock map, in any order of its names, leaves the
  -- log as it is or appends a list of entries: each of them is in the current term, at the index
  -- behind the one before, and frees with the next nonce a lock whose stored state has an owner
  -- and has expired at the time of the scan.
  pub scan_dlock_state_map-Releasing :
      IsCodec codec
      → (now : ℕ) (names : List Text) (s : Leading)
      → Releasing now s.node (scan_dlock_state_map codec now names s).1.node.log_entry_in_memory
  unfolding scan_dlock_state_map
  scan_dlock_state_map-Releasing laws now names s =
      let (good, same) = scan_loop-Yields laws now names [] s nothing in
      let t = (scan_loop codec now names [] s).1 in
      elim (scan_loop codec now names [] s).0
          as (λ r.
            Good (Releases now s.node) r
            → Releasing now s.node
                (continue r (append_releases codec) t).1.node.log_entry_in_memory) [
                  | err _ ↦ λ _.
                      subst (Releasing now s.node) (ap (λ n. n.log_entry_in_memory) (sym same))
                        not_appended
                  | ok es ↦ λ r.
                      subst (Releasing now s.node)
                        (ap (λ n. (insert_valid_entry_list es n.log_entry_in_memory).1) (sym same)
                          ∙ sym (append_releases_log es t))
                        (appended_all es r)
                ]
        good
