-- ===== src/Storage/StateMap/DLock/Locks.antt =====
-- The lock map seen as a table of lock states.
use raft_based_distributed_l.Exec.{nonce_mismatch, Result, err, Error, Result-cases}
use raft_based_distributed_l.Prelude.{
  refl, ◌∙◌, ap, subst, Option-cases, ◌⊎◌, if◌then◌else◌, text_eq→eq, add32, inr, text_eq,
  has_prefix, Bool-cases, true, inl, arith, some, Bytes, ◌≡◌, Text,
}
use raft_based_distributed_l.Dict
use raft_based_distributed_l.Storage.Codec.{Codec, IsCodec, LockInfo, DlockState}
use raft_based_distributed_l.Storage.LogEntry.{LogEntry}
use raft_based_distributed_l.Storage.StateMap.{ok, StateMap, follows}
use raft_based_distributed_l.Storage.StateMap.DLock.{
  query_specific_state, update_state_from_log_entry, check_nonce,
}
use raft_based_distributed_l.Storage.StateMap.DLock.Steps.{
  apply_command_refused, apply_command-stored, update_cases, carried, state_of, stored,
  apply_command-cases,
}

-- A lock that is absent takes any entry, and one that is there the entry with the next nonce.
abbrev pub Accepts : Result DlockState → LockInfo → Type 0
Accepts (err _) info = Unit {0}
Accepts (ok st) info = info.lock_nonce ≡ add32 st.lock_nonce 1

check_passed :
    (r : Result DlockState) (info : LockInfo) → check_nonce r info ≡ ok tt → Accepts r info
unfolding check_nonce
check_passed (err x) info h = tt
check_passed (ok st) info h = ground arith

module _ (codec : Codec) where
  -- Every stored state decodes, and carries the name that it stands under.
  pub record IsReadable (sm : StateMap) : Type 0 where
    pub at :
        (j : Text) (b : Bytes)
        → Dict.lookup j sm.state_map ≡ some b
        → (st : DlockState) × (codec.unmarshal_dlock_state b ≡ some st) × (st.lock_name ≡ j)

  query_stored :
      (e : LogEntry) (sm : StateMap) (info : LockInfo) (b : Bytes) (j : Text)
      → codec.unmarshal_dlock_state b ≡ some (state_of codec info)
      → query_specific_state codec (stored codec e sm info b) j ≡ (
          if text_eq info.lock_name j
          then ok (state_of codec info)
          else query_specific_state codec sm j)
  unfolding query_specific_state
  query_stored e sm info b j h = ground (arith, Dict.lookup-insert info.lock_name j b sm.state_map)

  stored-IsReadable :
      (e : LogEntry) (sm : StateMap) (info : LockInfo) (b : Bytes)
      → codec.unmarshal_dlock_state b ≡ some (state_of codec info)
      → IsReadable sm
      → IsReadable (stored codec e sm info b)
  stored-IsReadable e sm info b h v = record {
    at = λ j x found. elim (Bool-cases (text_eq info.lock_name j)) [
      | inl hit ↦ (
        state_of codec info,
        ground (arith, Dict.lookup-insert info.lock_name j b sm.state_map),
        text_eq→eq _ _ hit,
      )
      | inr miss ↦ v.at j x (ground (arith, Dict.lookup-insert info.lock_name j b sm.state_map))
    ];
  }

  module _ (laws : IsCodec codec) where
    decodes :
        (x : DlockState) (b : Bytes)
        → codec.marshal_dlock_state x ≡ some b
        → codec.unmarshal_dlock_state b ≡ some x
    decodes x b h = let (b', done, back) = laws.dlock_state x in ground arith

    -- An update leaves the table readable.
    pub update_state_from_log_entry-IsReadable :
        (e : LogEntry) (sm : StateMap)
        → IsReadable sm
        → IsReadable (update_state_from_log_entry codec (some e) sm).1
    update_state_from_log_entry-IsReadable e sm v =
        update_cases codec (λ r. IsReadable r.1) e sm v (record { at = v.at })
          (elim (apply_command-cases codec e sm) [
            | inl (info, b, _, _, done, r) ↦
                rw r (stored-IsReadable e sm info b (decodes (state_of codec info) b done) v)
            | inr (x, _, r) ↦ rw r v
          ])

    check_refused :
        (sm : StateMap) (info : LockInfo) (x : Error)
        → IsReadable sm
        → check_nonce (query_specific_state codec sm info.lock_name) info ≡ err x
        → (¬ Accepts (query_specific_state codec sm info.lock_name) info) × (x ≡ nonce_mismatch)
    unfolding check_nonce query_specific_state
    check_refused sm info x v h = elim (Option-cases (Dict.lookup info.lock_name sm.state_map)) [
      | inl absent ↦ absurd (ground arith)
      | inr (b, found) ↦
          let (st, back, _) = v.at info.lock_name b found in (ground arith, ground arith)
    ]

    -- If the codec keeps its laws, every stored state decodes under its own name, the entry
    -- follows the state of the lock map, is filed for it and carries a lock information, then
    -- either the lock is absent or the information has its next nonce, and the update succeeds
    -- and sets the state of that lock and of no other; or neither holds, and the update is
    -- refused with a nonce mismatch and leaves the map.
    pub update_state_from_log_entry-table :
        (e : LogEntry) (sm : StateMap) (info : LockInfo)
        → IsReadable sm
        → follows sm e ≡ true
        → has_prefix e.fast_index sm.keyword ≡ true
        → carried codec e ≡ ok info
        → (Accepts (query_specific_state codec sm info.lock_name) info
            × ((update_state_from_log_entry codec (some e) sm).0 ≡ ok tt)
            × ((j : Text)
                → query_specific_state codec (update_state_from_log_entry codec (some e) sm).1 j ≡ (
                    if text_eq info.lock_name j
                    then ok (state_of codec info)
                    else query_specific_state codec sm j)))
          ⊎ ((¬ Accepts (query_specific_state codec sm info.lock_name) info)
              × (update_state_from_log_entry codec (some e) sm ≡ (err nonce_mismatch, sm)))
    unfolding update_state_from_log_entry
    update_state_from_log_entry-table e sm info v next mine c =
        rw (next, mine)
          (elim (Result-cases (check_nonce (query_specific_state codec sm info.lock_name) info)) [
            | inl (_, good) ↦
                let (b, done, back) = laws.dlock_state (state_of codec info) in
                let r = apply_command-stored codec e sm info b c good done in
                rw r (inl (check_passed _ info good, refl, λ j. query_stored e sm info b j back))
            | inr (x, bad) ↦
                let (off, same) = check_refused sm info x v bad in
                inr (off, apply_command_refused codec e sm info x c bad ∙ rw same)
          ])

    -- If the codec keeps its laws and every stored state decodes under its own name, then
    -- whatever entry is given to the lock map, a lock that is in it stays in it, with its state
    -- as it was or with one whose nonce is the next one.
    pub update_state_from_log_entry-nonce :
        (e : LogEntry) (sm : StateMap) (j : Text) (st : DlockState)
        → IsReadable sm
        → query_specific_state codec sm j ≡ ok st
        → (st' : DlockState) × (query_specific_state codec
              (update_state_from_log_entry codec (some e) sm).1
              j
            ≡ ok st')
          × ((st' ≡ st) ⊎ (st'.lock_nonce ≡ add32 st.lock_nonce 1))
    update_state_from_log_entry-nonce e sm j st v q =
        update_cases codec
          (λ r.
            (st' : DlockState) × (query_specific_state codec r.1 j ≡ ok st')
            × ((st' ≡ st) ⊎ (st'.lock_nonce ≡ add32 st.lock_nonce 1)))
          e sm (st, q, inl refl) (st, unfold query_specific_state in q, inl refl)
          (elim (apply_command-cases codec e sm) [
            | inr (x, _, r) ↦ rw r (st, q, inl refl)
            | inl (info, b, _, good, done, r) ↦
                let new = query_stored e sm info b j (decodes (state_of codec info) b done) in
                rw r (elim (Bool-cases (text_eq info.lock_name j)) [
                  | inr other ↦ (st, new ∙ rw other q, inl refl)
                  | inl hit ↦ (
                    state_of codec info,
                    new ∙ rw hit refl,
                    inr (raised info (check_passed _ info good) (text_eq→eq _ _ hit)),
                  )
                ])
          ])
      where
        raised :
            (info : LockInfo)
            → Accepts (query_specific_state codec sm info.lock_name) info
            → info.lock_name ≡ j
            → info.lock_nonce ≡ add32 st.lock_nonce 1
        raised info a same =
            subst (λ r. Accepts r info) (ap (query_specific_state codec sm) same ∙ q) a
