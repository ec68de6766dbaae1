-- ===== src/Base/Sorting/Ascending.antt =====
-- A sort by a test that compares numbers gives a list in ascending order.
use vyos_client.Base.{
  ℕ, ◌≤◌, Bool, true, false, some, List, [], ◌∷◌, ◌≡◌, sym, ◌∙◌, ltb, arith, All, All-map,
  Bool-cases, inl, inr, String, or_else,
}
use vyos_client.Base.Number.{to_number}
use vyos_client.Base.Sorting.{insert_sorted, sort_by, number_before}

module _ {ℓ} {A : Type ℓ} (v : A → ℕ) where
  abbrev pub Ascending : List A → Type 0
  Ascending [] = Unit {0}
  Ascending (x ∷ xs) = All (λ y. v x ≤ v y) xs × Ascending xs

module _ {ℓ} {A : Type ℓ} (before : A → A → Bool) (v : A → ℕ) (P : A → Type 0)
    (agrees : (a b : A) → P a → P b → before a b ≡ ltb (v a) (v b)) where
  insert_sorted-All :
      (Q : A → Type 0) (x : A) (ys : List A) → Q x → All Q ys → All Q (insert_sorted before x ys)
  unfolding insert_sorted
  insert_sorted-All Q x [] q h = (q, h)
  insert_sorted-All Q x (y ∷ ys) q (p, h) = elim (Bool-cases (before y x)) [
    | inl e ↦ rw (e, All) (p, insert_sorted-All Q x ys q h)
    | inr e ↦ rw (e, All) (q, (p, h))
  ]

  le_of_not_before : (x y : A) → P x → P y → before y x ≡ false → v x ≤ v y
  le_of_not_before x y p q e =
      let k : ltb (v y) (v x) ≡ false = sym (agrees y x q p) ∙ e in ground arith

  le_of_before : (x y : A) → P x → P y → before y x ≡ true → v y ≤ v x
  le_of_before x y p q e = let k : ltb (v y) (v x) ≡ true = sym (agrees y x q p) ∙ e in ground arith

  insert_sorted-Ascending :
      (x : A) (ys : List A)
      → P x
      → All P ys
      → Ascending v ys
      → Ascending v (insert_sorted before x ys)
  unfolding insert_sorted
  insert_sorted-Ascending x [] p h s = (tt, tt)
  insert_sorted-Ascending x (y ∷ ys) p (q, h) (l, s) = elim (Bool-cases (before y x)) [
    | inl e ↦
        rw (e, Ascending)
          (
            insert_sorted-All (λ z. v y ≤ v z) x ys (le_of_before x y p q e) l,
            insert_sorted-Ascending x ys p h s,
          )
    | inr e ↦
        rw (e, Ascending)
          (
            (
              le_of_not_before x y p q e,
              All-map (λ z. v y ≤ v z) (λ z. v x ≤ v z)
                  (λ z k. let m = le_of_not_before x y p q e in omega arith) ys l,
            ),
            (l, s),
          )
  ]

  sort_by-All : (xs : List A) → All P xs → All P (sort_by before xs)
  unfolding sort_by
  sort_by-All [] h = h
  sort_by-All (x ∷ xs) (p, h) = insert_sorted-All P x (sort_by before xs) p (sort_by-All xs h)

  pub sort_by-Ascending : (xs : List A) → All P xs → Ascending v (sort_by before xs)
  unfolding sort_by
  sort_by-Ascending [] h = tt
  sort_by-Ascending (x ∷ xs) (p, h) =
      insert_sorted-Ascending x (sort_by before xs) p (sort_by-All xs h) (sort_by-Ascending xs h)

-- The two texts are numbers, so the comparator compares them.
pub number_before-ltb :
    (s t : String) (m n : ℕ)
    → to_number s ≡ some m
    → to_number t ≡ some n
    → number_before s t ≡ ltb m n
unfolding number_before
number_before-ltb s t m n e f = rw (e, f)

abbrev pub IsNumber : String → Type 0
IsNumber text = (n : ℕ) × (to_number text ≡ some n)

-- The number of a text, 0 where it is none.
abbrev pub number_of : String → ℕ
number_of text = or_else (to_number text) 0

module _ {A : Type 0} (tag : A → String) where
  tags-ltb :
      (a b : A)
      → IsNumber (tag a)
      → IsNumber (tag b)
      → number_before (tag a) (tag b) ≡ ltb (number_of (tag a)) (number_of (tag b))
  tags-ltb a b (m, e) (n, f) = rw (number_before-ltb (tag a) (tag b) m n e f, e, f)

  -- Sorting by tags that are numbers.
  pub sort_by-tags :
      (xs : List A)
      → All (λ a. IsNumber (tag a)) xs
      → Ascending (λ a. number_of (tag a)) (sort_by (λ a b. number_before (tag a) (tag b)) xs)
  sort_by-tags xs h =
      sort_by-Ascending (λ a b. number_before (tag a) (tag b)) (λ a. number_of (tag a))
        (λ a. IsNumber (tag a)) tags-ltb xs h
