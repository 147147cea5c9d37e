-- ===== src/Prelude/Words.antt =====
-- Go's fixed-width integers as their bit patterns: `uint32` and `uint64` wrap, and an `int64` is the
-- pattern below 2 ^ 64 that stands for it in two's complement.
use Prim.Native.Nat.{ℕ, ◌+◌, ◌-◌, ◌%◌, ◌^◌}
use mathlib.Core.Bool.{Bool}
use raft_based_distributed_l.Prelude.Tests.{ltb}

abbrev pub add32 : ℕ → ℕ → ℕ
add32 a b = (a + b) % 2 ^ 32

abbrev pub add64 : ℕ → ℕ → ℕ
add64 a b = (a + b) % 2 ^ 64

abbrev pub sub64 : ℕ → ℕ → ℕ
sub64 a b = (a + 2 ^ 64 - b) % 2 ^ 64

abbrev pub sub32 : ℕ → ℕ → ℕ
sub32 a b = (a + 2 ^ 32 - b) % 2 ^ 32

-- `a < b` on int64: shifting both by 2 ^ 63 carries the signed order to the order of the patterns.
abbrev pub ltb_i64 : ℕ → ℕ → Bool
ltb_i64 a b = ltb (add64 a (2 ^ 63)) (add64 b (2 ^ 63))
