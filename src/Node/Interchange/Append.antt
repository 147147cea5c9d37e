-- ===== src/Node/Interchange/Append.antt =====
-- The log entries that the interchange builds, and what carries over into the lock map.
use raft_based_distributed_l.Node.Context.{trigger_ae_channel}
use raft_based_distributed_l.Storage.LogMemory.{insert_log_entry}
use raft_based_distributed_l.Node.Interchange.{Leading}
use raft_based_distributed_l.Node.Acquirement.{DlockVolatileAcquirement}
use raft_based_distributed_l.Storage.StateMap.DLock.{as_command_dlock}
use raft_based_distributed_l.Exec.{ok}
use raft_based_distributed_l.Prelude.{some, add32, Text, refl, ◌++◌, text, ◌≡◌, ℕ}
use raft_based_distributed_l.Dict
use raft_based_distributed_l.Storage.Codec.{Codec, LockInfo}
use raft_based_distributed_l.Storage.Command.{
  dlock_keyword, get_fast_index, Command, command_dlock, get_as_dlock_info,
}
use raft_based_distributed_l.Storage.LogEntry.{LogEntry, new_log_entry}
use raft_based_distributed_l.Storage.StateMap.DLock.Steps.{carried}
use raft_based_distributed_l.Storage.Command.{new_command_from_raw_dlock}
use raft_based_distributed_l.Storage.StateMap.DLock.{as_command_dlock}

-- The entry has the term and the index, is filed under the lock's name, and carries `info`.
pub record IsEntry (codec : Codec) (term index : ℕ) (info : LockInfo) (e : LogEntry) : Type 0 where
  pub term_is : e.entry.term ≡ term
  pub index_is : e.entry.index ≡ index
  pub filed : e.fast_index ≡ text "DLock:" ++ info.lock_name
  pub carries : carried codec e ≡ ok info

module _ (codec : Codec) where
  pub new_log_entry-IsEntry :
      (term index : ℕ) (c : Command) (info : LockInfo)
      → c.command_name ≡ dlock_keyword
      → get_as_dlock_info codec c ≡ ok info
      → (e : LogEntry) × (new_log_entry codec term index (command_dlock c) ≡ ok e)
        × IsEntry codec term index info e
  unfolding new_log_entry get_fast_index get_as_dlock_info as_command_dlock
  new_log_entry-IsEntry term index c info name read = (
    record {
      entry = record {
        term = term;
        index = index;
        command_name = c.command_name;
        command_content = c.command_content;
      };
      fast_index = text "DLock:" ++ info.lock_name;
    },
    rw (read, new_log_entry),
    record {
      term_is = refl;
      index_is = refl;
      filed = refl;
      carries = rw (new_command_from_raw_dlock c.command_name c.command_content name, read);
    },
  )

-- What an append to the log leaves: the entry, one more appended nonce, and a signal to send.
abbrev pub appended : Text → DlockVolatileAcquirement → LogEntry → Leading → Leading
appended name acq e s = record {
  interchange = record s.interchange {
    pending_acquire =
        Dict.insert name (record acq { last_appended_nonce = add32 acq.last_appended_nonce 1 })
          s.interchange.pending_acquire;
  };
  node = record s.node {
    log_entry_in_memory = (insert_log_entry (some e) s.node.log_entry_in_memory).1;
    context = trigger_ae_channel s.node.context;
  };
}
