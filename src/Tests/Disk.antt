-- ===== src/Tests/Disk.antt =====
-- The log on disk, and the scan of the locks.
use raft_based_distributed_l.Storage.StateMap
use raft_based_distributed_l.Dict
use raft_based_distributed_l.Storage.StateMap.DLock
use raft_based_distributed_l.Storage.StateMap.KvStore
use raft_based_distributed_l.Storage.LogMemory.{insert}
use raft_based_distributed_l.Node.Recovery.Restarts.{new_node-IsBackedUp}
use raft_based_distributed_l.Node.Context.{new_start_node_context, leader}
use raft_based_distributed_l.Prelude.{has_prefix, Option, text_eq}
use raft_based_distributed_l.Storage.Command.{get_as_kv_store, new_command_from_raw}
use raft_based_distributed_l.Storage.LogMemory.{update}
use raft_based_distributed_l.Storage.LogMemory.Files.Stretch.{no_entry, an_entry}
use raft_based_distributed_l.Storage.LogMemory.Files.Termination.{reload_log_memory-ends}
use raft_based_distributed_l.Node.Interchange.Expiry.{scan_dlock_state_map}
use raft_based_distributed_l.Storage.LogMemory.Files.RoundTrip.{
  reload_log_memory-store_log_memory, IsReloaded,
}
use raft_based_distributed_l.Tests.JsonLike.{json_like-IsCodec, encode_entry, json_like}
use raft_based_distributed_l.Storage.LogMemory.Files.{
  reload_loop, store_log_memory, reload_log_memory,
}
use raft_based_distributed_l.Node.Recovery.{
  recovered_maps, recovered_context, new_peer_nodes, new_peer_node_list_from_config, recovered_node,
  new_node, backup_procedure,
}
use raft_based_distributed_l.Storage.Command.{get_as_dlock_info, get_fast_index}
use raft_based_distributed_l.Tests.Samples.{lock, alice, leading, info_of, node_in, entry_of}
use raft_based_distributed_l.Storage.LogEntry.Frames.{
  decode_log_entry, log_reload, IsFramed, frame, IsWriter,
}
use raft_based_distributed_l.Storage.Disk.{
  take_exactly, read_full, scan_digits, drop_newline, match_newline, end_line, hex_digits, blanks,
  skip_blanks, scan_hex, scan_unsigned, print_length, scan_length,
}
use raft_based_distributed_l.Storage.LogEntry.{new_log_entry_list, LogEntry}
use raft_based_distributed_l.Node.State.{Node}
use raft_based_distributed_l.Node.Recovery.Backups.{
  backup_procedure-IsBackedUp, all_backed_up, IsBackedUp,
}
use raft_based_distributed_l.Node.Interchange.Expiry.Scans.{
  scan_dlock_state_map-Releasing, Releasing,
}
use raft_based_distributed_l.Storage.LogMemory.{
  insert_log_entry, new_log_memory, fetch_log_entry, LogMemory,
}
use raft_based_distributed_l.Prelude.{
  ◌∙◌, sym, subst, ◌-◌, ◌==◌, ◌*◌, Bool-cases, ◌+◌, ◌≡◌, refl, arith, length, ◌++◌, Bytes, ℕ, none,
  some, [], ◌∷◌, inl, inr,
}
use raft_based_distributed_l.Exec.{log_entry_not_exist, ok_injective, Exec, Result, ok, err}
use raft_based_distributed_l.Storage.LogMemory.Contents.{IsContiguous}

abbrev one_entry : LogEntry
one_entry = entry_of 1 1 (info_of 1 alice 5 10)

-- The log with that entry alone.
abbrev short_log : LogMemory
short_log = record { log_in_memory = update (λ _. none) 1 (some one_entry); maximum_index = 1 }

one_entry_indexed : new_log_entry_list json_like one_entry.entry ≡ ok one_entry
unfolding new_log_entry_list get_fast_index get_as_dlock_info new_command_from_raw text_eq
one_entry_indexed = refl

abbrev one_entry_framed : IsFramed json_like one_entry
one_entry_framed = record {
  encoded = encode_entry one_entry.entry;
  marshalled = refl;
  unmarshalled = refl;
  short = omega arith;
  indexed = one_entry_indexed;
}

short_log-IsFramed :
    (j : ℕ) (le : LogEntry) → fetch_log_entry short_log j ≡ ok le → IsFramed json_like le
unfolding fetch_log_entry new_log_memory insert_log_entry
short_log-IsFramed j le h = elim (Bool-cases (1 == j)) [
  | inl q ↦
      let same : fetch_log_entry short_log j ≡ ok one_entry = ground arith in
      subst (IsFramed json_like) (ok_injective one_entry le (sym same ∙ h)) one_entry_framed
  | inr q ↦
      let no : fetch_log_entry short_log j ≡ err log_entry_not_exist = ground arith in
      absurd (let z = sym no ∙ h in cc)
]

short_log-IsContiguous : IsContiguous short_log
unfolding new_log_memory insert_log_entry
short_log-IsContiguous = record {
  valid = record { indexed = λ i e h. ground arith; bounded = λ i e h. ground arith };
  present = λ i pos top. (one_entry, ground arith);
}

-- A file that is appended to.
abbrev append_bytes : Bytes → Exec Bytes ℕ
append_bytes b w = (ok (length b), w ++ b)

abbrev file_writer : IsWriter append_bytes
file_writer = record {
  content = λ w. w;
  after = λ b w. w ++ b;
  writes = λ b w. refl;
  appends = λ b w. refl;
}

reload_log_memory-store_log_memory_example :
    (n : ℕ) × (w' : Bytes) × (lm' : LogMemory) × (store_log_memory json_like append_bytes 1 1
        short_log []
      ≡ (ok n, w'))
    × (reload_log_memory json_like w' new_log_memory ≡ some (ok (n + 9 * (1 + 1 - 1)), lm'))
    × IsReloaded short_log 1 1 lm'
reload_log_memory-store_log_memory_example =
    reload_log_memory-store_log_memory json_like append_bytes file_writer 1 1 short_log []
      short_log-IsContiguous short_log-IsFramed (omega arith) (omega arith) (omega arith) refl

-- A length, and no bytes behind it.
reload_log_memory-ends_example :
    (r : Result ℕ × LogMemory) × (reload_log_memory json_like (print_length 31) new_log_memory
      ≡ some r)
reload_log_memory-ends_example = reload_log_memory-ends json_like (print_length 31) new_log_memory

-- alice's lock has expired at 20.
scan_dlock_state_map-Releasing_example :
    Releasing json_like 20 leading.node
      (scan_dlock_state_map json_like 20 (lock ∷ []) leading).1.node.log_entry_in_memory
scan_dlock_state_map-Releasing_example =
    scan_dlock_state_map-Releasing json_like json_like-IsCodec 20 (lock ∷ []) leading

abbrev fresh : Node
fresh = node_in leader short_log

fresh-IsBackedUp : IsBackedUp json_like fresh []
fresh-IsBackedUp = record { entries = []; total = 0; stored = no_entry 1; size = refl }

backup_procedure-IsBackedUp_example :
    (w' : Bytes) × (backup_procedure json_like append_bytes fresh (some [])
      ≡ (all_backed_up fresh, some w'))
    × IsBackedUp json_like (all_backed_up fresh) w'
backup_procedure-IsBackedUp_example =
    backup_procedure-IsBackedUp json_like append_bytes file_writer fresh [] short_log-IsContiguous
      short_log-IsFramed (omega arith) (omega arith) fresh-IsBackedUp

-- What a backup of the log wrote.
abbrev written : Bytes
written = frame one_entry_framed ++ []

abbrev backed_up : Node
backed_up = all_backed_up fresh

short_log_first : fetch_log_entry short_log 1 ≡ ok one_entry
unfolding fetch_log_entry new_log_memory insert_log_entry
short_log_first = refl

backed_up-IsBackedUp : IsBackedUp json_like backed_up written
backed_up-IsBackedUp = record {
  entries = one_entry ∷ [];
  total = length one_entry_framed.encoded + 0;
  stored = an_entry 1 one_entry [] [] 0 one_entry_framed short_log_first (no_entry 2);
  size = refl;
}

abbrev node_of : Option (Result Node) → Node
node_of (some (ok n)) = n
node_of _ = fresh

abbrev restarted : Node
restarted = node_of (new_node json_like backed_up.config 2 7 written)

restarted_made : new_node json_like backed_up.config 2 7 written ≡ some (ok restarted)
unfolding new_node reload_log_memory reload_loop log_reload scan_length scan_hex scan_unsigned
    skip_blanks print_length blanks hex_digits end_line match_newline drop_newline scan_digits
    read_full take_exactly decode_log_entry Dict.delete Dict.insert Dict.lookup
    new_start_node_context new_peer_node_list_from_config new_peer_nodes recovered_context
    recovered_maps recovered_node has_prefix text_eq get_as_dlock_info get_as_kv_store
    get_fast_index new_command_from_raw new_log_entry_list fetch_log_entry insert new_log_memory
    DLock.apply_command DLock.as_command_dlock DLock.new_state_map_dlock
    DLock.update_state_from_log_memory DLock.update_state_from_log_entry
    KvStore.new_state_map_kv_store KvStore.update_state_from_log_memory
    KvStore.update_state_from_log_entry DLock.query_specific_state
    StateMap.update_state_from_log_memory StateMap.update_loop
restarted_made = refl

new_node-IsBackedUp_example : IsBackedUp json_like restarted written
new_node-IsBackedUp_example =
    new_node-IsBackedUp json_like backed_up.config 2 7 backed_up restarted written
      short_log-IsContiguous backed_up-IsBackedUp restarted_made
