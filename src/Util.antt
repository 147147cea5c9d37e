-- ===== src/Util.antt =====
-- utils/util.go. The random choice of `RandomObjectInStringList` is an argument, the number that
-- `rand.Intn(len(list))` gives.
pub mod Places
use raft_based_distributed_l.Prelude.{
  ℕ, ◌+◌, Bool, true, false, Option, none, some, List, [], ◌∷◌, Text, ltb, ◌==◌, get_elem?,
  if◌then◌else◌,
}

unfoldable pub uint64_min : ℕ → ℕ → ℕ
uint64_min a b = if ltb a b then a else b

unfoldable pub uint64_max : ℕ → ℕ → ℕ
uint64_max a b = if ltb a b then b else a

-- The loop of `number_in_uint32_list`, with its variable `result`.
unfoldable pub scan_number : List ℕ → ℕ → Bool → Bool
scan_number [] num result = result
scan_number (item ∷ list) num result = scan_number list num (if num == item then true else result)

unfoldable pub number_in_uint32_list : List ℕ → ℕ → Bool
unfolding scan_number
number_in_uint32_list list num = scan_number list num false

-- The loop of `index_in_uint32_list` at position `i`, with its variable `result`.
unfoldable pub scan_index : List ℕ → ℕ → ℕ → ℕ → ℕ
scan_index [] num i result = result
scan_index (item ∷ list) num i result =
    scan_index list num (i + 1) (if num == item then i else result)

-- `none` is the index -1.
unfoldable pub index_in_uint32_list : List ℕ → ℕ → Option ℕ
unfolding number_in_uint32_list scan_index
index_in_uint32_list list num =
    if number_in_uint32_list list num then some (scan_index list num 0 0) else none

-- An index out of range does not come from `rand.Intn`.
unfoldable pub random_object_in_string_list : ℕ → List Text → Text
random_object_in_string_list random list = elim (get_elem? list random) [ none ↦ [] | some s ↦ s ]
