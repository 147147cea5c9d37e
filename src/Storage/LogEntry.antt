-- ===== src/Storage/LogEntry.antt =====
-- storage/log_entry.go: log entries with their fast index.
pub mod Frames
use raft_based_distributed_l.Prelude.{inr, inl, ◌≡◌, ℕ, none, some, Text}
use raft_based_distributed_l.Exec.{Result-cases, Result, ok, err, go_panic}
use raft_based_distributed_l.Storage.Codec.{Entry, Codec}
use raft_based_distributed_l.Storage.Command.{
  CommandOperator, get_command_name, get_command_content, get_fast_index, new_command_from_raw,
}

pub record LogEntry : Type 0 where
  pub entry : Entry
  pub fast_index : Text

module _ (codec : Codec) where
  unfoldable pub new_log_entry : ℕ → ℕ → CommandOperator → Result LogEntry
  unfolding get_command_name get_command_content
  new_log_entry term index command = elim (get_fast_index codec command) [
    | err e ↦ err e
    | ok fast_index ↦ ok (record { entry = pb_entry; fast_index = fast_index })
  ]
    where
      pb_entry : Entry
      pb_entry = record {
        term = term;
        index = index;
        command_name = get_command_name command;
        command_content = get_command_content command;
      }

  -- An unknown command name gives a nil command, on which the method call panics.
  unfoldable pub new_log_entry_list : Entry → Result LogEntry
  new_log_entry_list pb_entry =
      elim (new_command_from_raw pb_entry.command_name pb_entry.command_content) [
        | none ↦ err go_panic
        | some command ↦ elim (get_fast_index codec command) [
          | err e ↦ err e
          | ok fast_index ↦ ok (record { entry = pb_entry; fast_index = fast_index })
        ]
      ]

  pub new_log_entry_fields :
      (term index : ℕ) (command : CommandOperator) (e : LogEntry)
      → new_log_entry term index command ≡ ok e
      → (e.entry.term ≡ term) × (e.entry.index ≡ index)
  unfolding new_log_entry
  new_log_entry_fields term index command e h = elim (Result-cases (get_fast_index codec command)) [
    | inl (f, q) ↦ let h' = rw (q, new_log_entry) at h in (cc, cc)
    | inr (x, q) ↦ let h' = rw (q, new_log_entry) at h in cc
  ]
