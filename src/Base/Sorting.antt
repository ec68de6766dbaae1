-- ===== src/Base/Sorting.antt =====
-- `Array.prototype.sort` with a comparator: a stable sort, by insertion. The test says that the
-- comparator is negative, that is, that its first argument goes before its second.
pub mod Ascending
use vyos_client.Base.{ℕ, String, Bool, false, Option, some, List, [], ◌∷◌, ltb, if◌then◌else◌}
use vyos_client.Base.Number.{to_number}

module _ {ℓ} {A : Type ℓ} (before : A → A → Bool) where
  -- `x` stood before all of the sorted list, so it stays before its equals.
  unfoldable pub insert_sorted : A → List A → List A
  insert_sorted x [] = x ∷ []
  insert_sorted x (y ∷ ys) =
      let rest = insert_sorted x ys in if before y x then y ∷ rest else x ∷ y ∷ ys

  unfoldable pub sort_by : List A → List A
  unfolding insert_sorted
  sort_by [] = []
  sort_by (x ∷ xs) = insert_sorted x (sort_by xs)

-- `Number(a) - Number(b) < 0`; a comparison with NaN counts as equal.
number_lt : Option ℕ → Option ℕ → Bool
number_lt (some a) (some b) = ltb a b
number_lt _ _ = false

unfoldable pub number_before : String → String → Bool
unfolding number_lt to_number
number_before a b = number_lt (to_number a) (to_number b)
