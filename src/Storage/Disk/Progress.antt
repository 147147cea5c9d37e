-- ===== src/Storage/Disk/Progress.antt =====
-- What is left to read after each part of a frame is shorter.
use raft_based_distributed_l.Prelude.{
  ltb, ◌&&◌, Bool, Bool-cases, ap, refl, Option-cases, ◌==◌, ◌-◌, Option, ◌+◌, ◌*◌, arith, ◌≤◌, ◌≡◌,
  length, Bytes, ℕ, none, some, zero, suc, [], ◌∷◌, inl, inr,
}
use raft_based_distributed_l.Exec.{
  io_unexpected_eof, io_eof, ok_injective, Result-cases, scan_failure, Result, ok, err,
}
use raft_based_distributed_l.Storage.Disk.{
  drop_newline, end_line, newline, digit_value, read_full, match_newline, scan_length, scan_hex,
  scan_unsigned, made_length, is_sign, skip_blanks, take_exactly, scan_digits,
}

skip_blanks-length : (s : Bytes) → length (skip_blanks s) ≤ length s
unfolding skip_blanks
skip_blanks-length [] = omega arith
skip_blanks-length (c ∷ s) = let behind = skip_blanks-length s in ground arith

scan_digits-length : (width n : ℕ) (s : Bytes) → length (scan_digits width n s).1 ≤ length s
unfolding scan_digits
scan_digits-length zero n s = omega arith
scan_digits-length (suc width) n [] = omega arith
scan_digits-length (suc width) n (c ∷ s) =
    elim (digit_value c)
      as (λ v.
        length
          (elim v as (λ _. ℕ × Bytes) [
            | none ↦ (n, c ∷ s)
            | some d ↦ scan_digits width (n * 16 + d) s
          ]).1
        ≤ suc (length s)) [
          | none ↦ omega arith
          | some d ↦ omega (arith, scan_digits-length width (n * 16 + d) s)
        ]

-- The count of the bytes that are left, 0 after an error.
abbrev left : {A : Type 0} → Result (A × Bytes) → ℕ
left (ok (_, rest)) = length rest
left (err _) = 0

abbrev left_of : Option (Bytes × Bytes) → ℕ
left_of none = 0
left_of (some (_, rest)) = length rest

drop_newline-length : (s rest : Bytes) → drop_newline s ≡ ok rest → length rest ≤ length s
unfolding drop_newline
drop_newline-length [] rest h =
    let e : length {A = ℕ} [] ≡ length rest = ap (λ r. length r) (ok_injective [] rest h) in
    omega arith
drop_newline-length (c ∷ s) rest h = elim (Bool-cases (c == newline)) [
  | inl q ↦
      let h' : ok s ≡ ok rest = rw (q, drop_newline) at h in
      let e : length s ≡ length rest = ap (λ r. length r) (ok_injective s rest h') in omega arith
  | inr q ↦ let h' : err scan_failure ≡ ok rest = rw (q, drop_newline) at h in cc
]

match_newline-length : (s rest : Bytes) → match_newline s ≡ ok rest → length rest ≤ length s
unfolding match_newline
match_newline-length s rest h =
    omega (arith, drop_newline-length (skip_blanks s) rest h, skip_blanks-length s)

end_line-length : (n : ℕ) (s : Bytes) → left (end_line (n, s)) ≤ length s
unfolding end_line
end_line-length n s = elim (Result-cases (match_newline s)) [
  | inl (rest, q) ↦ rw (q, end_line) (match_newline-length s rest q)
  | inr (x, q) ↦ rw (q, end_line) (omega arith)
]

scan_unsigned-length : (width : ℕ) (s : Bytes) → left (scan_unsigned (suc width) s) ≤ length s - 1
unfolding scan_unsigned scan_digits
scan_unsigned-length width [] = omega arith
scan_unsigned-length width (c ∷ s) = elim (Option-cases (digit_value c)) [
  | inl q ↦ rw (q, scan_unsigned) (omega arith)
  | inr (d, q) ↦
      let (n, rest) = scan_digits width (0 * 16 + d) s in
      let first : scan_digits (suc width) 0 (c ∷ s) ≡ scan_digits width (0 * 16 + d) s =
        rw (q, scan_digits) refl in
      let ends = end_line-length n rest in
      let digits = scan_digits-length width (0 * 16 + d) s in
      rw (q, scan_unsigned, first) (omega arith)
]

made_length-length :
    (negative : Bool) (r : Result (ℕ × Bytes)) → left (made_length negative r) ≤ left r
unfolding made_length
made_length-length negative (err e) = omega arith
made_length-length negative (ok (n, rest)) = elim (Bool-cases (negative && ltb 0 n)) [
  | inl q ↦ rw (q) (omega arith)
  | inr q ↦ rw (q) (omega arith)
]

scan_hex-length : (s : Bytes) → left (scan_hex s) ≤ length s - 1
unfolding scan_hex
scan_hex-length [] = omega arith
scan_hex-length (c ∷ s) = elim (Bool-cases (is_sign c)) [
  | inl q ↦
      let made = made_length-length (c == b'-') (scan_unsigned 7 s) in
      let behind = scan_unsigned-length 6 s in rw (q, scan_hex) (omega arith)
  | inr q ↦ let behind = scan_unsigned-length 7 (c ∷ s) in rw (q, scan_hex) (omega arith)
]

pub scan_length-length :
    (c : ℕ) (s rest : Bytes) (n : ℕ) → scan_length (c ∷ s) ≡ ok (n, rest) → length rest ≤ length s
unfolding scan_length
scan_length-length c s rest n h =
    let e = ap left h in
    let skipped : length (skip_blanks (c ∷ s)) ≤ suc (length s) = skip_blanks-length (c ∷ s) in
    omega (arith, scan_hex-length (skip_blanks (c ∷ s)))

take_exactly-length : (n : ℕ) (s : Bytes) → left_of (take_exactly n s) ≤ length s
unfolding take_exactly
take_exactly-length zero s = omega arith
take_exactly-length (suc n) [] = omega arith
take_exactly-length (suc n) (c ∷ s) = elim (Option-cases (take_exactly n s)) [
  | inl q ↦ rw (q, take_exactly) (omega arith)
  | inr (r, q) ↦
      let e = ap left_of q in rw (q, take_exactly) (omega (arith, take_exactly-length n s))
]

pub read_full-length : (n : ℕ) (s a b : Bytes) → read_full n s ≡ ok (a, b) → length b ≤ length s
unfolding read_full
read_full-length n s a b h = elim (Option-cases (take_exactly n s)) [
  | inl q ↦
      elim s
          as (λ t.
            (elim t as (λ _. Result (Bytes × Bytes)) [
              | [] ↦ err io_eof
              | _ ∷ _ ↦ err io_unexpected_eof
            ])
              ≡ ok (a, b)
            → length b ≤ length s) [ [] ↦ λ h'. cc | _ ∷ _ ↦ λ h'. cc ]
        (rw (q, read_full) at h)
  | inr (r, q) ↦
      let h' = rw (q, read_full) at h in
      let e = ap left h' in let e' = ap left_of q in omega (arith, take_exactly-length n s)
]
