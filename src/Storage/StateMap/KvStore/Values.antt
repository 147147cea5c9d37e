-- ===== src/Storage/StateMap/KvStore/Values.antt =====
-- The key-value map: what an applied entry sets.
use raft_based_distributed_l.Storage.LogEntry.{LogEntry}
use raft_based_distributed_l.Exec.{kv_fetch, Result, err}
use raft_based_distributed_l.Prelude.{
  refl, inr, inl, Option-cases, arith, text_eq, if◌then◌else◌, some, ◌≢◌, has_prefix, none, true,
  Bytes, Text, Option, ◌≡◌,
}
use raft_based_distributed_l.Dict
use raft_based_distributed_l.Storage.Codec.{Codec, KeyValue}
use raft_based_distributed_l.Storage.StateMap.{ok, StateMap, follows}
use raft_based_distributed_l.Storage.StateMap.KvStore.{
  query_specific_state, update_state_from_log_entry, put_or_delete,
}
use raft_based_distributed_l.Storage.StateMap.KvStore.Stuck.{carried, apply_command-carried}

-- What a query answers after a command.
abbrev pub answer : Option Bytes → Result Bytes
answer none = err kv_fetch
answer (some v) = ok v

put_or_delete-query :
    (e : LogEntry) (key : Text) (value : Option Bytes) (sm : StateMap) (j : Text)
    → (value ≡ none → Dict.lookup key sm.state_map ≢ none)
    → ((put_or_delete e key value sm).0 ≡ ok tt)
      × (query_specific_state (put_or_delete e key value sm).1 j
          ≡ (if text_eq key j then answer value else query_specific_state sm j))
unfolding put_or_delete query_specific_state
put_or_delete-query e key (some v) sm j there =
    (refl, ground (arith, Dict.lookup-insert key j v sm.state_map))
put_or_delete-query e key none sm j there = elim (Option-cases (Dict.lookup key sm.state_map)) [
  | inl absent ↦ absurd (there refl absent)
  | inr (v, found) ↦ (ground arith, ground (arith, Dict.lookup-delete key j sm.state_map))
]

-- If an entry follows the state of the key-value map, is filed for it, carries a key and a value,
-- and does not delete an absent key, then the update succeeds; afterwards the key has the value,
-- or none if that is nil, and every other key is as before.
pub update_state_from_log_entry-query :
    (codec : Codec) (e : LogEntry) (sm : StateMap) (kv : KeyValue) (j : Text)
    → follows sm e ≡ true
    → has_prefix e.fast_index sm.keyword ≡ true
    → carried codec e ≡ ok kv
    → (kv.value ≡ none → Dict.lookup kv.key sm.state_map ≢ none)
    → ((update_state_from_log_entry codec (some e) sm).0 ≡ ok tt)
      × (query_specific_state (update_state_from_log_entry codec (some e) sm).1 j
          ≡ (if text_eq kv.key j then answer kv.value else query_specific_state sm j))
unfolding update_state_from_log_entry
update_state_from_log_entry-query codec e sm kv j next mine c there =
    rw (next, mine)
      (rw (apply_command-carried codec e sm kv c)
        (put_or_delete-query e kv.key kv.value sm j there))
