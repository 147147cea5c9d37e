-- ===== src/Storage/Disk.antt =====
-- What storage/log_entry.go and storage/log_memory.go use of fmt and io to frame the entries on
-- disk: the verb `%8x\n` of Fprintf and Fscanf, and ReadFull. A reader is the bytes that are left.
pub mod Hex
pub mod Progress
use raft_based_distributed_l.Exec.{
  go_panic, io_unexpected_eof, io_eof, scan_failure, err, ok, Result,
}
use Prim.Native.Nat.{◌/◌}
use raft_based_distributed_l.Prelude.{
  not, ◌++◌, ◌||◌, ◌&&◌, ◌==◌, leb, ltb, length, ◌%◌, ◌+◌, ◌-◌, Bool, if◌then◌else◌, ℕ, zero, suc,
  List, [], ◌∷◌, Option, none, some, Bytes, ◌*◌,
}

abbrev pub newline : ℕ
newline = b'\n'

abbrev pub space : ℕ
space = b' '

-- The blanks but for the newline.
abbrev pub is_blank : ℕ → Bool
is_blank c = c == space || (ltb 8 c && (ltb c 14 && not (c == newline)))

abbrev pub digit_char : ℕ → ℕ
digit_char d = if ltb d 10 then b'0' + d else b'a' + d - 10

abbrev pub digit_value : ℕ → Option ℕ
digit_value c =
    if leb b'0' c && leb c b'9'
    then some (c - b'0')
    else if leb b'a' c && leb c b'f'
    then some (c + 10 - b'a')
    else if leb b'A' c && leb c b'F'
    then some (c + 10 - b'A')
    else none

-- The hexadecimal digits of a number of at most `suc rounds` digits.
unfoldable pub hex_digits : ℕ → ℕ → Bytes
hex_digits zero n = digit_char (n % 16) ∷ []
hex_digits (suc rounds) n =
    let more = hex_digits rounds (n / 16) ++ digit_char (n % 16) ∷ [] in
    if ltb n 16 then digit_char n ∷ [] else more

unfoldable pub blanks : ℕ → Bytes
blanks zero = []
blanks (suc n) = space ∷ blanks n

-- `%8x\n` of a nonnegative int.
unfoldable pub print_length : ℕ → Bytes
print_length n =
    let digits = hex_digits 15 n in blanks (8 - length digits) ++ digits ++ newline ∷ []

unfoldable pub skip_blanks : Bytes → Bytes
skip_blanks [] = []
skip_blanks (c ∷ s) = let rest = skip_blanks s in if is_blank c then rest else c ∷ s

-- Up to `width` digits.
unfoldable pub scan_digits : ℕ → ℕ → Bytes → ℕ × Bytes
scan_digits zero n s = (n, s)
scan_digits (suc width) n [] = (n, [])
scan_digits (suc width) n (c ∷ s) = elim (digit_value c) [
  | none ↦ (n, c ∷ s)
  | some d ↦ scan_digits width (n * 16 + d) s
]

-- A newline of the format: blanks, and then a newline or the end.
unfoldable pub drop_newline : Bytes → Result Bytes
drop_newline [] = ok []
drop_newline (c ∷ rest) = if c == newline then ok rest else err scan_failure

unfoldable pub match_newline : Bytes → Result Bytes
match_newline s = drop_newline (skip_blanks s)

unfoldable pub end_line : ℕ × Bytes → Result (ℕ × Bytes)
end_line (n, s) = elim (match_newline s) [ err e ↦ err e | ok rest ↦ ok (n, rest) ]

-- The digits of a number and the end of its line.
unfoldable pub scan_unsigned : ℕ → Bytes → Result (ℕ × Bytes)
scan_unsigned width [] = err io_eof
scan_unsigned width (c ∷ s) = elim (digit_value c) [
  | none ↦ err scan_failure
  | some _ ↦ end_line (scan_digits width 0 (c ∷ s))
]

abbrev pub is_sign : ℕ → Bool
is_sign c = c == b'+' || c == b'-'

-- The slice of the length that was scanned: `make` panics on a negative one.
unfoldable pub made_length : Bool → Result (ℕ × Bytes) → Result (ℕ × Bytes)
made_length negative (err e) = err e
made_length negative (ok (n, rest)) = if negative && ltb 0 n then err go_panic else ok (n, rest)

-- The number itself, with a sign or none; a sign counts for the width.
unfoldable pub scan_hex : Bytes → Result (ℕ × Bytes)
unfolding scan_unsigned made_length
scan_hex [] = err io_eof
scan_hex (c ∷ s) =
    if is_sign c then made_length (c == b'-') (scan_unsigned 7 s) else scan_unsigned 8 (c ∷ s)

-- `%8x\n`
unfoldable pub scan_length : Bytes → Result (ℕ × Bytes)
scan_length s = scan_hex (skip_blanks s)

unfoldable pub take_exactly : ℕ → Bytes → Option (Bytes × Bytes)
take_exactly zero s = some ([], s)
take_exactly (suc n) [] = none
take_exactly (suc n) (c ∷ s) = elim (take_exactly n s) [
  | none ↦ none
  | some (a, b) ↦ some (c ∷ a, b)
]

-- The error is io.EOF only if nothing was read.
unfoldable pub read_full : ℕ → Bytes → Result (Bytes × Bytes)
read_full n s = elim (take_exactly n s) [
  | some r ↦ ok r
  | none ↦ elim s [ [] ↦ err io_eof | _ ∷ _ ↦ err io_unexpected_eof ]
]
