-- ===== src/Tests/Maps.antt =====
-- The two state maps.
use raft_based_distributed_l.Storage.StateMap.KvStore.Refinement.{
  update_state_from_log_memory-Refines, entries_from, replay, view,
}
use raft_based_distributed_l.Storage.StateMap.KvStore.Stuck.{delete_absent_blocks}
use raft_based_distributed_l.Storage.LogMemory.{update, LogMemory, fetch_log_entry}
use raft_based_distributed_l.Storage.StateMap.DLock.Steps.{
  update_state_from_log_entry-Outcome, Outcome,
}
use raft_based_distributed_l.Exec.{nonce_mismatch, map_index_term, err, ok}
use raft_based_distributed_l.Storage.StateMap.DLock.Commits.{update_in_batches}
use raft_based_distributed_l.Storage.StateMap.DLock.{as_command_dlock}
use raft_based_distributed_l.Tests.Samples.{
  alice, bob, locked, lock, info_of, empty_map, lock_map, two_entries, entry_of,
}
use raft_based_distributed_l.Storage.Codec.{KeyValue, DlockState}
use raft_based_distributed_l.Tests.JsonLike.{encode_value, json_like-IsCodec, json_like}
use raft_based_distributed_l.Storage.LogEntry.{LogEntry}
use raft_based_distributed_l.Storage.Command.{
  kv_store_keyword, get_as_kv_store, get_as_dlock_info, new_command_from_raw,
}
use raft_based_distributed_l.Storage.StateMap.{
  update_state_from_log_memory, update_loop, follows, StateMap,
}
use raft_based_distributed_l.Prelude.{
  zero, suc, ◌-◌, ◌+◌, ◌∷◌, Text, if◌then◌else◌, subst, Bytes, add32, ◌⊎◌, arith, refl, true,
  text_eq, has_prefix, none, some, Option, [], text, ℕ, ◌≡◌,
}
use raft_based_distributed_l.Storage.StateMap
use raft_based_distributed_l.Storage.StateMap.DLock
use raft_based_distributed_l.Storage.StateMap.KvStore
use raft_based_distributed_l.Storage.StateMap.DLock.Steps
use raft_based_distributed_l.Storage.StateMap.DLock.Locks.{
  update_state_from_log_entry-table, update_state_from_log_entry-IsReadable, Accepts,
  update_state_from_log_entry-nonce, IsReadable,
}
use raft_based_distributed_l.Dict
use raft_based_distributed_l.Storage.StateMap.KvStore.Replicas.{
  AgreeUpTo, Applied, Applied-same_view, new_map, updated,
}
use raft_based_distributed_l.Storage.StateMap.KvStore.Stuck

abbrev new_locks : StateMap
new_locks = empty_map (text "DLock")

new_locks-IsReadable : IsReadable json_like new_locks
unfolding Dict.lookup
new_locks-IsReadable = record { at = λ j b h. cc }

abbrev first_entry : LogEntry
first_entry = entry_of 1 1 (info_of 1 alice 5 10)

abbrev second_entry : LogEntry
second_entry = entry_of 2 2 (info_of 2 bob 20 10)

first_step :
    DLock.update_state_from_log_entry json_like (some first_entry) new_locks ≡ (ok tt, lock_map)
unfolding DLock.update_state_from_log_entry DLock.apply_command DLock.query_specific_state
    DLock.check_nonce DLock.as_command_dlock new_command_from_raw get_as_dlock_info text_eq
    has_prefix Dict.lookup Dict.insert DLock.new_dlock_state
first_step = refl

lock_map-IsReadable : IsReadable json_like lock_map
lock_map-IsReadable =
    subst (λ r. IsReadable json_like r.1) first_step
      (update_state_from_log_entry-IsReadable json_like json_like-IsCodec first_entry new_locks
        new_locks-IsReadable)

second_carried : Steps.carried json_like second_entry ≡ ok (info_of 2 bob 20 10)
unfolding new_command_from_raw as_command_dlock get_as_dlock_info text_eq
second_carried = refl

second_follows : follows lock_map second_entry ≡ true
second_follows = refl

second_prefix : has_prefix second_entry.fast_index lock_map.keyword ≡ true
unfolding has_prefix
second_prefix = refl

alice_holds : DLock.query_specific_state json_like lock_map lock ≡ ok locked
unfolding DLock.query_specific_state Dict.lookup text_eq
alice_holds = refl

update_state_from_log_entry-nonce_example :
    (st' : DlockState) × (DLock.query_specific_state json_like
        (DLock.update_state_from_log_entry json_like (some second_entry) lock_map).1
        lock
      ≡ ok st')
    × ((st' ≡ locked) ⊎ (st'.lock_nonce ≡ add32 1 1))
update_state_from_log_entry-nonce_example =
    update_state_from_log_entry-nonce json_like json_like-IsCodec second_entry lock_map lock locked
      lock_map-IsReadable alice_holds

update_state_from_log_entry-table_example :
    (Accepts (DLock.query_specific_state json_like lock_map lock) (info_of 2 bob 20 10)
      × ((DLock.update_state_from_log_entry json_like (some second_entry) lock_map).0 ≡ ok tt)
      × ((j : Text)
          → DLock.query_specific_state json_like
              (DLock.update_state_from_log_entry json_like (some second_entry) lock_map).1
              j
            ≡ (if text_eq lock j
                then ok (Steps.state_of json_like (info_of 2 bob 20 10))
                else DLock.query_specific_state json_like lock_map j)))
    ⊎ ((¬ Accepts (DLock.query_specific_state json_like lock_map lock) (info_of 2 bob 20 10))
        × (DLock.update_state_from_log_entry json_like (some second_entry) lock_map
            ≡ (err nonce_mismatch, lock_map)))
update_state_from_log_entry-table_example =
    update_state_from_log_entry-table json_like json_like-IsCodec second_entry lock_map
      (info_of 2 bob 20 10) lock_map-IsReadable second_follows second_prefix second_carried

first_applied :
    DLock.update_state_from_log_memory json_like two_entries 1 1 new_locks ≡ (ok tt, lock_map)
unfolding DLock.update_state_from_log_memory update_state_from_log_memory update_loop
    fetch_log_entry DLock.update_state_from_log_entry DLock.apply_command DLock.query_specific_state
    DLock.check_nonce DLock.as_command_dlock new_command_from_raw get_as_dlock_info text_eq
    has_prefix Dict.lookup Dict.insert DLock.new_dlock_state
first_applied = refl

update_in_batches_example :
    DLock.update_state_from_log_memory json_like two_entries 1 2 new_locks
    ≡ DLock.update_state_from_log_memory json_like two_entries 2 2 lock_map
update_in_batches_example =
    update_in_batches json_like two_entries new_locks lock_map 1 1 2 refl (omega arith)
      (omega arith) (omega arith) (omega arith) first_applied

-- Key-value entries.
abbrev new_values : StateMap
new_values = empty_map (text "KVStore")

abbrev kv_of : Option Bytes → KeyValue
kv_of value = record { key = text "k"; value = value }

abbrev kv_entry : ℕ → Option Bytes → LogEntry
kv_entry index value = record {
  entry = record {
    term = 1;
    index = index;
    command_name = kv_store_keyword;
    command_content = encode_value (text "k") value;
  };
  fast_index = text "KVStore:k";
}

kv_carried : Stuck.carried json_like (kv_entry 1 (some [])) ≡ ok (kv_of (some []))
unfolding new_command_from_raw KvStore.as_command_kv_store get_as_kv_store text_eq
kv_carried = refl

delete_carried : Stuck.carried json_like (kv_entry 1 none) ≡ ok (kv_of none)
unfolding new_command_from_raw KvStore.as_command_kv_store get_as_kv_store text_eq
delete_carried = refl

kv_follows : (value : Option Bytes) → follows new_values (kv_entry 1 value) ≡ true
kv_follows value = refl

kv_prefix :
    (value : Option Bytes) → has_prefix (kv_entry 1 value).fast_index new_values.keyword ≡ true
unfolding has_prefix
kv_prefix value = refl

abbrev delete_log : LogMemory
delete_log = record {
  log_in_memory =
      update (update (λ _. none) 1 (some (kv_entry 1 none))) 2 (some (kv_entry 2 (some [])));
  maximum_index = 2;
}

fetch_first_deleted : fetch_log_entry delete_log 1 ≡ ok (kv_entry 1 none)
unfolding fetch_log_entry
fetch_first_deleted = refl

fetch_second_put : fetch_log_entry delete_log 2 ≡ ok (kv_entry 2 (some []))
unfolding fetch_log_entry
fetch_second_put = refl

absent : Dict.lookup (text "k") new_values.state_map ≡ none
unfolding Dict.lookup
absent = refl

delete_absent_blocks_example :
    KvStore.update_state_from_log_memory json_like delete_log 1 2 new_values
    ≡ (err map_index_term, new_values)
delete_absent_blocks_example =
    delete_absent_blocks json_like delete_log new_values 2 (kv_entry 1 none) (kv_entry 2 (some []))
      (kv_of none) (omega arith) (omega arith) (omega arith) fetch_first_deleted fetch_second_put
      refl (kv_follows none) (kv_prefix none) delete_carried refl absent

abbrev put_log : LogMemory
put_log = record {
  log_in_memory = update (λ _. none) 1 (some (kv_entry 1 (some [])));
  maximum_index = 1;
}

abbrev k_set : StateMap
k_set = record {
  keyword = text "KVStore";
  state_map = (text "k", []) ∷ [];
  prev_index = 1;
  prev_term = 1;
}

put_applied : KvStore.update_state_from_log_memory json_like put_log 1 1 new_values ≡ (ok tt, k_set)
unfolding KvStore.update_state_from_log_memory StateMap.update_state_from_log_memory update_loop
    fetch_log_entry KvStore.update_state_from_log_entry KvStore.apply_command has_prefix
    new_command_from_raw KvStore.as_command_kv_store get_as_kv_store text_eq KvStore.put_or_delete
    Dict.insert
put_applied = refl

update_state_from_log_memory-Refines_example :
    view k_set
    ≡ replay json_like (text "KVStore") (entries_from put_log (1 + 1 - 1) 1) (view new_values)
update_state_from_log_memory-Refines_example =
    update_state_from_log_memory-Refines json_like put_log 1 1 new_values k_set (omega arith)
      put_applied

-- A longer log of another node.
abbrev longer_log : LogMemory
longer_log = record {
  log_in_memory =
      update (update (λ _. none) 1 (some (kv_entry 1 (some [])))) 2 (some (kv_entry 2 none));
  maximum_index = 2;
}

put_applied_there :
    KvStore.update_state_from_log_memory json_like longer_log 1 1 new_values ≡ (ok tt, k_set)
unfolding KvStore.update_state_from_log_memory StateMap.update_state_from_log_memory update_loop
    fetch_log_entry KvStore.update_state_from_log_entry KvStore.apply_command has_prefix
    new_command_from_raw KvStore.as_command_kv_store get_as_kv_store text_eq KvStore.put_or_delete
    Dict.insert
put_applied_there = refl

logs_agree : AgreeUpTo 1 put_log longer_log
unfolding fetch_log_entry
logs_agree zero h = refl
logs_agree (suc zero) h = refl
logs_agree (suc (suc i)) h = absurd (omega arith)

values_made : KvStore.new_state_map_kv_store (text "KVStore") ≡ ok new_values
unfolding KvStore.new_state_map_kv_store StateMap.new_state_map has_prefix
values_made = refl

put_log-Applied : Applied json_like put_log 1 k_set
put_log-Applied =
    updated put_log put_log 0 1 new_values k_set (new_map put_log new_values values_made)
      (λ i h. refl) (omega arith) put_applied

longer_log-Applied : Applied json_like longer_log 1 k_set
longer_log-Applied =
    updated longer_log longer_log 0 1 new_values k_set (new_map longer_log new_values values_made)
      (λ i h. refl) (omega arith) put_applied_there

Applied-same_view_example :
    KvStore.query_specific_state k_set (text "k") ≡ KvStore.query_specific_state k_set (text "k")
Applied-same_view_example =
    Applied-same_view json_like put_log longer_log 1 k_set k_set put_log-Applied longer_log-Applied
      logs_agree (text "k")
