-- ===== src/Util/Places.antt =====
-- Where an id stands in a list.
use native.Mathlib.Decide.{dec_lt}
use raft_based_distributed_l.Util.{
  scan_index, scan_number, index_in_uint32_list, number_in_uint32_list,
}
use raft_based_distributed_l.Prelude.{
  get_elem?, subst, none, some, ℕ, ap, sym, refl, ◌==◌, arith, Bool-cases, ◌≡◌, ◌≢◌, ◌<◌, ◌+◌, ◌⊎◌,
  List, [], ◌∷◌, true, false, inl, inr, zero, suc, Bool,
}

-- The last position of an id in a list.
pub record IsPlace (xs : List ℕ) (id i : ℕ) : Type 0 where
  pub there : get_elem? xs i ≡ some id
  pub last : (j : ℕ) → i < j → get_elem? xs j ≢ some id

abbrev pub IsAbsent : List ℕ → ℕ → Type 0
IsAbsent xs id = (j : ℕ) → get_elem? xs j ≢ some id

behind-IsAbsent :
    (x : ℕ) (xs : List ℕ) (num : ℕ) → x ≢ num → IsAbsent xs num → IsAbsent (x ∷ xs) num
behind-IsAbsent x xs num h absent zero e =
    h (ap (λ o. elim o as (λ _. ℕ) [ none ↦ x | some y ↦ y ]) e)
behind-IsAbsent x xs num h absent (suc j) e = absent j e

first-IsPlace : (x : ℕ) (xs : List ℕ) → IsAbsent xs x → IsPlace (x ∷ xs) x 0
first-IsPlace x xs absent = record { there = refl; last = later }
  where
    later : (j : ℕ) → 0 < j → get_elem? (x ∷ xs) j ≢ some x
    later zero h = absurd (omega arith)
    later (suc j) h = absent j

behind-IsPlace : (x : ℕ) (xs : List ℕ) (num k : ℕ) → IsPlace xs num k → IsPlace (x ∷ xs) num (suc k)
behind-IsPlace x xs num k p = record { there = p.there; last = later }
  where
    later : (j : ℕ) → suc k < j → get_elem? (x ∷ xs) j ≢ some num
    later zero h = absurd (omega arith)
    later (suc j) h = p.last j (omega arith)

scan_index-cases :
    (xs : List ℕ) (num i result : ℕ)
    → ((scan_index xs num i result ≡ result) × IsAbsent xs num)
      ⊎ ((k : ℕ) × (scan_index xs num i result ≡ i + k) × IsPlace xs num k)
unfolding scan_index
scan_index-cases [] num i result = inl (refl, λ j e. cc)
scan_index-cases (x ∷ xs) num i result = elim (Bool-cases (num == x)) [
  | inl e ↦
      let same : x ≡ num = ground arith in
      elim (scan_index-cases xs num (i + 1) i) [
        | inl (r, absent) ↦
            let place =
              subst (λ y. IsPlace (x ∷ xs) y 0) same
                (first-IsPlace x xs (subst (IsAbsent xs) (sym same) absent)) in
            inr (0, rw (e) (omega arith), place)
        | inr (k, r, place) ↦ inr (suc k, rw (e) (omega arith), behind-IsPlace x xs num k place)
      ]
  | inr e ↦ elim (scan_index-cases xs num (i + 1) result) [
    | inl (r, absent) ↦ inl (rw (e) r, behind-IsAbsent x xs num (λ z. ground arith) absent)
    | inr (k, r, place) ↦ inr (suc k, rw (e) (omega arith), behind-IsPlace x xs num k place)
  ]
]

scan_number-IsAbsent :
    (xs : List ℕ) (num : ℕ) (result : Bool) → IsAbsent xs num → scan_number xs num result ≡ result
unfolding scan_number
scan_number-IsAbsent [] num result absent = refl
scan_number-IsAbsent (x ∷ xs) num result absent =
    let other : (num == x) ≡ false = elim (Bool-cases (num == x)) [
      | inl e ↦ let same : x ≡ num = ground arith in absurd (absent 0 (ap (λ y. some y) same))
      | inr e ↦ e
    ] in
    rw (other) (scan_number-IsAbsent xs num result (λ j. absent (suc j)))

scan_number-true : (xs : List ℕ) (num : ℕ) → scan_number xs num true ≡ true
unfolding scan_number
scan_number-true [] num = refl
scan_number-true (x ∷ xs) num = elim (Bool-cases (num == x)) [
  | inl e ↦ rw (e) (scan_number-true xs num)
  | inr e ↦ rw (e) (scan_number-true xs num)
]

scan_number-place :
    (xs : List ℕ) (num k : ℕ) → get_elem? xs k ≡ some num → scan_number xs num false ≡ true
unfolding scan_number
scan_number-place [] num k h = absurd (let z = h in cc)
scan_number-place (x ∷ xs) num zero h =
    let same : x ≡ num = ap (λ o. elim o as (λ _. ℕ) [ none ↦ x | some y ↦ y ]) h in
    let e : (num == x) ≡ true = ground arith in rw (e) (scan_number-true xs num)
scan_number-place (x ∷ xs) num (suc k) h = elim (Bool-cases (num == x)) [
  | inl e ↦ rw (e) (scan_number-true xs num)
  | inr e ↦ rw (e) (scan_number-place xs num k h)
]

pub index_in_uint32_list-cases :
    (xs : List ℕ) (num : ℕ)
    → ((index_in_uint32_list xs num ≡ none) × IsAbsent xs num)
      ⊎ ((i : ℕ) × (index_in_uint32_list xs num ≡ some i) × IsPlace xs num i)
unfolding index_in_uint32_list number_in_uint32_list
index_in_uint32_list-cases xs num = elim (scan_index-cases xs num 0 0) [
  | inl (r, absent) ↦
      inl (rw (scan_number-IsAbsent xs num false absent, index_in_uint32_list) refl, absent)
  | inr (k, r, place) ↦
      let found = scan_number-place xs num k place.there in
      let here : scan_index xs num 0 0 ≡ k = omega arith in
      inr (k, rw (found, here, index_in_uint32_list) refl, place)
]

pub IsPlace-unique : (xs : List ℕ) (id i j : ℕ) → IsPlace xs id i → IsPlace xs id j → i ≡ j
IsPlace-unique xs id i j p q = elim (dec_lt i j) [
  | yes h ↦ absurd (p.last j h q.there)
  | no h ↦ elim (dec_lt j i) [ yes l ↦ absurd (q.last i l p.there) | no l ↦ omega arith ]
]
