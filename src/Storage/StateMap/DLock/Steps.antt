-- ===== src/Storage/StateMap/DLock/Steps.antt =====
-- One entry applied to the lock map: every outcome and what it leaves.
use raft_based_distributed_l.Storage.StateMap.Batches.{Advances}
use raft_based_distributed_l.Prelude.{
  Bytes, ◌≡◌, refl, ◌⊎◌, inl, inr, Option, none, some, true, false, arith, add64, has_prefix,
  Bool-cases, Option-cases,
}
use raft_based_distributed_l.Exec.{
  codec_failure, Error, Result, ok, err, Result-cases, map_keyword, map_index_term,
}
use raft_based_distributed_l.Dict
use raft_based_distributed_l.Storage.Codec.{Codec, LockInfo, DlockState}
use raft_based_distributed_l.Storage.Command.{
  command_dlock, command_kv_store, CommandOperator, Command, or_codec_failure, get_as_dlock_info,
  new_command_from_raw,
}
use raft_based_distributed_l.Storage.LogEntry.{LogEntry}
use raft_based_distributed_l.Storage.StateMap.{StateMap, follows, advance, passes}
use raft_based_distributed_l.Storage.StateMap.DLock.{
  as_command_dlock, check_nonce, query_specific_state, apply_command, update_state_from_log_entry,
  is_map_keyword,
}

-- An entry is applied, passed over as another map's, or refused with nothing changed.
pub data Outcome (e : LogEntry) (sm : StateMap) (r : Result (Unit {0}) × StateMap) : Type 0 where
  applied :
      r.0 ≡ ok tt
      → follows sm e ≡ true
      → has_prefix e.fast_index sm.keyword ≡ true
      → r.1.prev_index ≡ e.entry.index
      → r.1.prev_term ≡ e.entry.term
      → r.1.keyword ≡ sm.keyword
      → Outcome e sm r
  passed :
      r ≡ (err map_keyword, advance e sm)
      → follows sm e ≡ true
      → has_prefix e.fast_index sm.keyword ≡ false
      → Outcome e sm r
  refused : (x : Error) → is_map_keyword x ≡ false → r ≡ (err x, sm) → Outcome e sm r

as_command_dlock_err :
    (o : Option CommandOperator) (x : Error) → as_command_dlock o ≡ err x → is_map_keyword x ≡ false
unfolding as_command_dlock
as_command_dlock_err none x h = ground arith
as_command_dlock_err (some (command_kv_store c)) x h = ground arith
as_command_dlock_err (some (command_dlock c)) x h = ground arith

or_codec_failure_err :
    {A : Type 0} (o : Option A) (x : Error) → or_codec_failure o ≡ err x → is_map_keyword x ≡ false
or_codec_failure_err none x h = ground arith
or_codec_failure_err (some a) x h = ground arith

module _ (codec : Codec) where
  check_nonce_err :
      (sm : StateMap) (info : LockInfo) (x : Error)
      → check_nonce (query_specific_state codec sm info.lock_name) info ≡ err x
      → is_map_keyword x ≡ false
  unfolding check_nonce query_specific_state
  check_nonce_err sm info x h = ground arith

  get_as_dlock_info_err :
      (c : Command) (x : Error) → get_as_dlock_info codec c ≡ err x → is_map_keyword x ≡ false
  unfolding get_as_dlock_info
  get_as_dlock_info_err c x h =
      or_codec_failure_err (codec.unmarshal_lock_info c.command_content) x h

  -- The state that an applied command leaves.
  abbrev pub stored : LogEntry → StateMap → LockInfo → Bytes → StateMap
  stored e sm info encoded =
      advance e (record sm { state_map = Dict.insert info.lock_name encoded sm.state_map })

  abbrev pub state_of : LockInfo → DlockState
  state_of info = record {
    owner = info.new_owner;
    lock_nonce = info.lock_nonce;
    lock_name = info.lock_name;
    timestamp = info.timestamp;
    expire = info.expire;
  }

  abbrev pub info_in : Result Command → Result LockInfo
  info_in (ok command) = get_as_dlock_info codec command
  info_in (err x) = err x

  -- The lock information that an entry carries.
  abbrev pub carried : LogEntry → Result LockInfo
  carried e =
      info_in (as_command_dlock (new_command_from_raw e.entry.command_name e.entry.command_content))

  pub apply_command-cases :
      (e : LogEntry) (sm : StateMap)
      → ((info : LockInfo) × (encoded : Bytes) × (carried e ≡ ok info)
          × (check_nonce (query_specific_state codec sm info.lock_name) info ≡ ok tt)
          × (codec.marshal_dlock_state (state_of info) ≡ some encoded)
          × (apply_command codec e sm ≡ (ok tt, stored e sm info encoded)))
        ⊎ ((x : Error) × (is_map_keyword x ≡ false) × (apply_command codec e sm ≡ (err x, sm)))
  unfolding apply_command
  apply_command-cases e sm =
      elim (Result-cases
        (as_command_dlock (new_command_from_raw e.entry.command_name e.entry.command_content))) [
          | inr (x, bad) ↦ inr (x, as_command_dlock_err _ x bad, rw (bad, apply_command))
          | inl (command, got) ↦ elim (Result-cases (get_as_dlock_info codec command)) [
            | inr (x, bad) ↦
                inr (x, get_as_dlock_info_err command x bad, rw (got, bad, apply_command))
            | inl (info, read) ↦
                elim (Result-cases
                  (check_nonce (query_specific_state codec sm info.lock_name) info)) [
                    | inr (x, bad) ↦
                        inr (x, check_nonce_err sm info x bad, rw (got, read, bad, apply_command))
                    | inl (_, checked) ↦
                        elim (Option-cases (codec.marshal_dlock_state (state_of info))) [
                          | inl failed ↦
                              inr (
                                codec_failure,
                                refl,
                                rw (got, read, checked, failed, apply_command),
                              )
                          | inr (encoded, done) ↦ inl (
                            info,
                            encoded,
                            rw (got, read),
                            checked,
                            done,
                            rw (got, read, checked, done, apply_command),
                          )
                        ]
                  ]
          ]
        ]

  -- Every outcome of an update of the lock map by an entry: it is applied, with the index and the
  -- term of the map set to those of the entry and the keyword kept; or it follows the map but is
  -- filed for another one, and only the index and the term move on; or it is refused and the map
  -- stays.
  pub update_state_from_log_entry-Outcome :
      (e : LogEntry) (sm : StateMap) → Outcome e sm (update_state_from_log_entry codec (some e) sm)
  unfolding update_state_from_log_entry
  update_state_from_log_entry-Outcome e sm = elim (Bool-cases (follows sm e)) [
    | inr late ↦ rw late (refused map_index_term refl refl)
    | inl next ↦ elim (Bool-cases (has_prefix e.fast_index sm.keyword)) [
      | inr other ↦ rw (next, other) (passed refl next other)
      | inl mine ↦
          rw (next, mine)
            (elim (apply_command-cases e sm) [
              | inl (info, encoded, _, _, _, done) ↦ rw done (applied refl next mine refl refl refl)
              | inr (x, other, failed) ↦ rw failed (refused x other refl)
            ])
    ]
  ]

  -- So the loop over the log counts its entries.
  pub update_state_from_log_entry-Advances :
      Advances (update_state_from_log_entry codec) is_map_keyword
  update_state_from_log_entry-Advances e sm h =
      go (update_state_from_log_entry codec (some e) sm) (update_state_from_log_entry-Outcome e sm)
        h
    where
      go :
          (r : Result (Unit {0}) × StateMap)
          → Outcome e sm r
          → passes is_map_keyword r.0 ≡ true
          → (add64 sm.prev_index 1 ≡ e.entry.index) × (r.1.prev_index ≡ e.entry.index)
      go r (applied done next _ at _ _) h = (ground arith, at)
      go r (passed done next _) h = (ground arith, ground arith)
      go r (refused x other done) h = absurd (ground arith)

  -- A carried lock information that the nonce check refuses.
  pub apply_command_refused :
      (e : LogEntry) (sm : StateMap) (info : LockInfo) (x : Error)
      → carried e ≡ ok info
      → check_nonce (query_specific_state codec sm info.lock_name) info ≡ err x
      → apply_command codec e sm ≡ (err x, sm)
  unfolding apply_command
  apply_command_refused e sm info x c bad =
      elim (Result-cases
        (as_command_dlock (new_command_from_raw e.entry.command_name e.entry.command_content))) [
          | inr (y, none_there) ↦ absurd (ground arith)
          | inl (command, got) ↦
              let read : get_as_dlock_info codec command ≡ ok info = ground arith in
              rw (got, read, bad, apply_command)
        ]

  -- A carried lock information that it lets through.
  pub apply_command-stored :
      (e : LogEntry) (sm : StateMap) (info : LockInfo) (b : Bytes)
      → carried e ≡ ok info
      → check_nonce (query_specific_state codec sm info.lock_name) info ≡ ok tt
      → codec.marshal_dlock_state (state_of info) ≡ some b
      → apply_command codec e sm ≡ (ok tt, stored e sm info b)
  unfolding apply_command
  apply_command-stored e sm info b c good done =
      elim (Result-cases
        (as_command_dlock (new_command_from_raw e.entry.command_name e.entry.command_content))) [
          | inr (y, none_there) ↦ absurd (ground arith)
          | inl (command, got) ↦
              let read : get_as_dlock_info codec command ≡ ok info = ground arith in
              rw (got, read, good, done, apply_command)
        ]

  -- The three ways through an update.
  pub update_cases :
      (P : Result (Unit {0}) × StateMap → Type 0) (e : LogEntry) (sm : StateMap)
      → P (err map_index_term, sm)
      → P (err map_keyword, advance e sm)
      → P (apply_command codec e sm)
      → P (update_state_from_log_entry codec (some e) sm)
  unfolding update_state_from_log_entry
  update_cases P e sm late other mine = elim (Bool-cases (follows sm e)) [
    | inr l ↦ rw l late
    | inl next ↦ elim (Bool-cases (has_prefix e.fast_index sm.keyword)) [
      | inr o ↦ rw (next, o) other
      | inl m ↦ rw (next, m) mine
    ]
  ]
