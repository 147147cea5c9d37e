-- ===== src/Storage/LogMemory/Files/Termination.antt =====
-- storage/log_memory.go: the loop that reloads a log ends.
use raft_based_distributed_l.Storage.Disk.Progress.{read_full-length, scan_length-length}
use raft_based_distributed_l.Storage.Disk.{read_full, scan_length}
use raft_based_distributed_l.Storage.LogMemory.Files.Stretch.{log_reload-nil}
use raft_based_distributed_l.Storage.LogEntry.{LogEntry}
use raft_based_distributed_l.Storage.Codec.{Codec}
use raft_based_distributed_l.Storage.LogMemory.Files.{is_eof, reload_log_memory, reload_loop}
use raft_based_distributed_l.Storage.LogEntry.Frames.{decode_log_entry, log_reload}
use raft_based_distributed_l.Prelude.{
  ap, refl, ◌+◌, if◌then◌else◌, ◌≤◌, arith, ◌<◌, length, ◌≡◌, Bytes, ℕ, some, zero, suc, [], ◌∷◌,
  inl, inr,
}
use raft_based_distributed_l.Storage.LogMemory.{LogMemory, insert}
use raft_based_distributed_l.Exec.{Result-cases, Result, ok, err}

-- A frame takes a byte at least.
log_reload-length :
    (codec : Codec) (c : ℕ) (s rest : Bytes) (le : LogEntry) (n : ℕ)
    → log_reload codec (c ∷ s) ≡ ok (le, n, rest)
    → length rest ≤ length s
unfolding log_reload
log_reload-length codec c s rest le n h = elim (Result-cases (scan_length (c ∷ s))) [
  | inr (x, q) ↦ let h' = rw (q, log_reload) at h in cc
  | inl ((size, body), q) ↦ elim (Result-cases (read_full size body)) [
    | inr (x, r) ↦ let h' = rw (q, log_reload, r) at h in cc
    | inl ((encoded, body'), r) ↦ elim (Result-cases (decode_log_entry codec encoded)) [
      | inr (x, d) ↦ let h' = rw (q, log_reload, r, d) at h in cc
      | inl (le', d) ↦
          let h' = rw (q, log_reload, r, d) at h in
          let e : body' ≡ rest = cc in
          let e' = ap (λ t. length t) e in
          omega
            (arith, scan_length-length c s body size q, read_full-length size body encoded body' r)
    ]
  ]
]

reload_loop-ends :
    (codec : Codec) (fuel : ℕ) (reader : Bytes) (total : ℕ) (lm : LogMemory)
    → length reader < fuel
    → (r : Result ℕ × LogMemory) × (reload_loop codec fuel reader total lm ≡ some r)
unfolding reload_loop
reload_loop-ends codec zero reader total lm h = let no : ⊥ = omega arith in elim no [ ]
reload_loop-ends codec (suc fuel) [] total lm h =
    ((ok total, lm), rw (log_reload-nil codec, reload_loop) refl)
reload_loop-ends codec (suc fuel) (c ∷ s) total lm h =
    elim (Result-cases (log_reload codec (c ∷ s))) [
      | inr (x, q) ↦ ((if is_eof x then ok total else err x, lm), rw (q, reload_loop) refl)
      | inl ((le, n, rest), q) ↦
          let (r, ends) =
            reload_loop-ends codec fuel rest (total + n) (insert le lm)
              (omega (arith, log_reload-length codec c s rest le n q)) in
          (r, rw (q, reload_loop) ends)
    ]

-- LogReload ends on every file, whatever its bytes, with a count, an error or a panic: one round
-- more than the file has bytes is enough for its loop.
pub reload_log_memory-ends :
    (codec : Codec) (reader : Bytes) (lm : LogMemory)
    → (r : Result ℕ × LogMemory) × (reload_log_memory codec reader lm ≡ some r)
unfolding reload_log_memory
reload_log_memory-ends codec reader lm =
    reload_loop-ends codec (suc (length reader)) reader 0 lm (omega arith)
