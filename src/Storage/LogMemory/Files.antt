-- ===== src/Storage/LogMemory/Files.antt =====
-- storage/log_memory.go: the log on disk, and back.
pub mod Stretch
pub mod RoundTrip
pub mod Termination
use raft_based_distributed_l.Storage.LogEntry.Frames.{log_reload}
use raft_based_distributed_l.Storage.LogMemory.{insert, fetch_log_entry, LogMemory}
use raft_based_distributed_l.Storage.Codec.{Codec}
use raft_based_distributed_l.Prelude.{
  Bool, ◌-◌, ◌+◌, ltb, length, ◌||◌, ◌==◌, if◌then◌else◌, Option, ℕ, Bytes, none, some, zero, suc,
  [], ◌∷◌, inl, inr,
}
use raft_based_distributed_l.Exec.{Error, lift, Result, Exec, ok, err, io_eof}
use raft_based_distributed_l.Storage.LogMemory.{insert}
use raft_based_distributed_l.Prelude.{true, false}
use raft_based_distributed_l.Exec.{◌>>=◌}
use raft_based_distributed_l.Storage.LogEntry.Frames.{log_store}

-- The indexes from `i` on, one for each round. The index of the last round is not the largest
-- uint64, at which the loop would wrap.
unfoldable pub store_loop :
    {W : Type 0} → Codec → (Bytes → Exec W ℕ) → LogMemory → ℕ → ℕ → ℕ → Exec W ℕ
store_loop codec write lm zero i total w = (ok total, w)
store_loop codec write lm (suc rounds) i total w =
    (lift (fetch_log_entry lm i) >>= λ entry.
    log_store codec write entry >>= λ n. store_loop codec write lm rounds (i + 1) (total + n))
      w

unfoldable pub store_log_memory :
    {W : Type 0} → Codec → (Bytes → Exec W ℕ) → ℕ → ℕ → LogMemory → Exec W ℕ
store_log_memory codec write start end lm w =
    if start == 0
      || end == 0
      || ltb lm.maximum_index start
      || ltb lm.maximum_index end
      || ltb end start
    then (err Error.log_store, w)
    else store_loop codec write lm (end + 1 - start) start 0 w

abbrev pub is_eof : Error → Bool
is_eof io_eof = true
is_eof _ = false

-- Until the end of the file; `none` is out of fuel. The count beside an error is not modelled.
unfoldable pub reload_loop : Codec → ℕ → Bytes → ℕ → LogMemory → Option (Result ℕ × LogMemory)
reload_loop codec zero reader total lm = none
reload_loop codec (suc fuel) reader total lm = elim (log_reload codec reader) [
  | err e ↦ some (if is_eof e then ok total else err e, lm)
  | ok (le, n, rest) ↦ reload_loop codec fuel rest (total + n) (insert le lm)
]

-- Each round reads a byte at least.
unfoldable pub reload_log_memory : Codec → Bytes → LogMemory → Option (Result ℕ × LogMemory)
reload_log_memory codec reader = reload_loop codec (suc (length reader)) reader 0
