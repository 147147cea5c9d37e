-- ===== src/Storage/Disk/Hex.antt =====
use mathlib.Core.List.{append_assoc}
use raft_based_distributed_l.Exec.{ok}
use native.Mathlib.Numerals.{unary_clauses}
-- A printed length is read back.
use raft_based_distributed_l.Storage.Disk.{
  drop_newline, end_line, digit_char, digit_value, scan_digits, hex_digits, is_blank, skip_blanks,
  blanks, newline, scan_hex, is_sign, scan_unsigned, match_newline, print_length, scan_length,
}
use raft_based_distributed_l.Prelude.{
  ap, ◌-◌, length-append, if◌then◌else◌, sym, subst, ◌++◌, ◌+◌, ◌≤◌, ◌*◌, arith, length, ◌≡◌, ◌^◌,
  ◌<◌, ℕ, Bytes, zero, suc, [], ◌∷◌, some, none, true, false, refl, inl, inr, Bool-cases, ltb, ◌%◌,
}
use Prim.Native.Nat.{◌/◌}

digit_value-digit_char : (d : ℕ) → d < 16 → digit_value (digit_char d) ≡ some d
digit_value-digit_char d h = ground arith

-- The value of digits, behind `acc`.
data Digits : Bytes → ℕ → ℕ → Type 0 where
  no_digit : (acc : ℕ) → Digits [] acc acc
  one_digit :
      (c d : ℕ) (s : Bytes) (acc n : ℕ)
      → digit_value c ≡ some d
      → Digits s (acc * 16 + d) n
      → Digits (c ∷ s) acc n

Digits-append :
    (s : Bytes) (acc n m c d : ℕ)
    → Digits s acc n
    → digit_value c ≡ some d
    → m ≡ n * 16 + d
    → Digits (s ++ c ∷ []) acc m
Digits-append _ acc _ m c d (no_digit _) h e =
    one_digit c d [] acc m h (subst (Digits [] (acc * 16 + d)) (sym e) (no_digit (acc * 16 + d)))
Digits-append _ acc n m c d (one_digit c' d' s _ _ q r) h e =
    one_digit c' d' (s ++ c ∷ []) acc m q (Digits-append s (acc * 16 + d') n m c d r h e)

scan_digits-stops :
    (width acc c : ℕ) (rest : Bytes)
    → digit_value c ≡ none
    → scan_digits width acc (c ∷ rest) ≡ (acc, c ∷ rest)
unfolding scan_digits
scan_digits-stops zero acc c rest h = refl
scan_digits-stops (suc width) acc c rest h = rw (h, scan_digits) refl

scan-Digits :
    (s rest : Bytes) (acc n more c : ℕ)
    → Digits s acc n
    → digit_value c ≡ none
    → scan_digits (length s + more) acc (s ++ c ∷ rest) ≡ (n, c ∷ rest)
unfolding scan_digits
scan-Digits _ rest acc _ more c (no_digit _) h = scan_digits-stops (0 + more) acc c rest h
scan-Digits _ rest acc n more c (one_digit c' d s _ _ q r) h =
    let e : suc (length s) + more ≡ suc (length s + more) = omega arith in
    let rest' = scan-Digits s rest (acc * 16 + d) n more c r h in rw (e, q, rest', scan_digits) refl

next_digit : (k n : ℕ) → n < 16 ^ suc (suc k) → n / 16 < 16 ^ suc k
next_digit k n h =
    let h' : suc n ≤ 16 ^ k * 16 * 16 = simp unary_clauses at h in simp unary_clauses (omega arith)

digit-Digits : (d : ℕ) → d < 16 → Digits (digit_char d ∷ []) 0 d
digit-Digits d h =
    let e : 0 * 16 + d ≡ d = omega arith in
    one_digit (digit_char d) d [] 0 d (digit_value-digit_char d h)
      (subst (Digits [] (0 * 16 + d)) e (no_digit (0 * 16 + d)))

hex_digits-Digits : (rounds n : ℕ) → n < 16 ^ (suc rounds) → Digits (hex_digits rounds n) 0 n
unfolding hex_digits
hex_digits-Digits zero n h =
    let e : n % 16 ≡ n = omega arith in
    subst (λ m. Digits (digit_char (n % 16) ∷ []) 0 m) e (digit-Digits (n % 16) (omega arith))
hex_digits-Digits (suc rounds) n h =
    let s = hex_digits rounds (n / 16) in
    let more : Digits (s ++ digit_char (n % 16) ∷ []) 0 n =
      Digits-append s 0 (n / 16) n (digit_char (n % 16)) (n % 16)
        (hex_digits-Digits rounds (n / 16) (next_digit rounds n h))
        (digit_value-digit_char (n % 16) (omega arith)) (omega arith) in
    elim (ltb n 16)
        as (λ b.
          b ≡ ltb n 16
          → Digits (if b then digit_char n ∷ [] else s ++ digit_char (n % 16) ∷ []) 0 n) [
            | true ↦ λ q. digit-Digits n (ground arith)
            | false ↦ λ _. more
          ]
      refl

length-hex_digits : (rounds k n : ℕ) → n < 16 ^ (suc k) → length (hex_digits rounds n) ≤ suc k
unfolding hex_digits
length-hex_digits zero k n h = omega arith
length-hex_digits (suc rounds) zero n h = elim (Bool-cases (ltb n 16)) [
  | inl q ↦ rw (q, hex_digits) (omega arith)
  | inr q ↦ let r : ¬ (ltb n 16 ≡ false) = ground arith in elim (r q) [ ]
]
length-hex_digits (suc rounds) (suc k) n h =
    elim (ltb n 16)
      as (λ b.
        length
          (if b then digit_char n ∷ [] else hex_digits rounds (n / 16) ++ digit_char (n % 16) ∷ [])
        ≤ suc (suc k)) [
          | true ↦ omega arith
          | false ↦ omega (
            arith,
            length-append (hex_digits rounds (n / 16)) (digit_char (n % 16) ∷ []),
            length-hex_digits rounds k (n / 16) (next_digit k n h),
          )
        ]

is_blank-digit_value : (c d : ℕ) → digit_value c ≡ some d → is_blank c ≡ false
is_blank-digit_value c d h = ground arith

skip_blanks-blanks : (k : ℕ) (s : Bytes) → skip_blanks (blanks k ++ s) ≡ skip_blanks s
unfolding skip_blanks blanks
skip_blanks-blanks zero s = refl
skip_blanks-blanks (suc k) s = skip_blanks-blanks k s

hex_digits-nonempty : (rounds n : ℕ) → 1 ≤ length (hex_digits rounds n)
unfolding hex_digits
hex_digits-nonempty zero n = omega arith
hex_digits-nonempty (suc rounds) n =
    elim (ltb n 16)
      as (λ b.
        1
        ≤ length (
            if b
            then digit_char n ∷ []
            else hex_digits rounds (n / 16) ++ digit_char (n % 16) ∷ [])) [
              | true ↦ omega arith
              | false ↦
                  omega
                    (arith, length-append (hex_digits rounds (n / 16)) (digit_char (n % 16) ∷ []))
            ]

skip_blanks-digit : (c d : ℕ) (s : Bytes) → digit_value c ≡ some d → skip_blanks (c ∷ s) ≡ c ∷ s
unfolding skip_blanks
skip_blanks-digit c d s h =
    ap {B = Bytes} (λ b. if b then skip_blanks s else c ∷ s) (is_blank-digit_value c d h)

scan_hex-Digits :
    (s rest : Bytes) (n : ℕ)
    → Digits s 0 n
    → 1 ≤ length s
    → length s ≤ 8
    → scan_hex (skip_blanks (s ++ newline ∷ rest)) ≡ ok (n, rest)
unfolding scan_hex scan_unsigned match_newline drop_newline skip_blanks end_line
scan_hex-Digits _ rest n (no_digit _) h k = let no : ⊥ = omega arith in elim no [ ]
scan_hex-Digits _ rest n (one_digit c d s _ _ q r) h k =
    let b = skip_blanks-digit c d (s ++ newline ∷ rest) q in
    let unsigned : is_sign c ≡ false = ground arith in
    let e : length (c ∷ s) + (8 - length (c ∷ s)) ≡ 8 = omega arith in
    let scanned =
      subst (λ w. scan_digits w 0 (c ∷ s ++ newline ∷ rest) ≡ (n, newline ∷ rest)) e
        (scan-Digits (c ∷ s) rest 0 n (8 - length (c ∷ s)) newline (one_digit c d s 0 n q r)
          refl) in
    rw (b, unsigned, scan_hex, scan_unsigned, q, scanned, end_line)
      (ap (λ p. ok (p.0, rest)) scanned)

pub scan_length-print_length :
    (n : ℕ) (rest : Bytes) → n < 16 ^ 8 → scan_length (print_length n ++ rest) ≡ ok (n, rest)
unfolding scan_length print_length
scan_length-print_length n rest h =
    let s = hex_digits 15 n in
    let e = append_assoc (blanks (8 - length s) ++ s) (newline ∷ []) rest in
    let e2 = append_assoc (blanks (8 - length s)) s (newline ∷ rest) in
    let r =
      scan_hex-Digits s rest n (hex_digits-Digits 15 n (omega arith)) (hex_digits-nonempty 15 n)
        (length-hex_digits 15 7 n h) in
    let b = skip_blanks-blanks (8 - length s) (s ++ newline ∷ rest) in rw (e, e2, b) r
