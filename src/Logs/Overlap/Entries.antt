-- ===== src/Logs/Overlap/Entries.antt =====
-- lib/mergeLogLines.ts: the entries of `combined`, and parts of lists.
use vyos_client.Base.{
  ℕ, zero, suc, ◌+◌, ◌-◌, ◌≤◌, ◌<◌, ◌≡◌, refl, sym, ap, ◌∙◌, arith, String, Option, none, some,
  List, [], ◌∷◌, ◌++◌, map, length, get_elem?, take, drop,
}
use vyos_client.Logs.{Entry, combine}

-- A line as an entry, at a place that may be out of range.
abbrev pub lift : Option String → Option Entry
lift none = none
lift (some v) = some (some v)

pub lift-apart : (o : Option String) → lift o ≡ some none → ⊥
lift-apart none h = cc
lift-apart (some v) h = cc

pub lift-injective : (o p : Option String) → lift o ≡ lift p → o ≡ p
lift-injective none none h = refl
lift-injective none (some w) h = cc
lift-injective (some v) none h = cc
lift-injective (some v) (some w) h = cc

pub entry-next :
    (next tail : List String) (t : ℕ)
    → t < length next
    → get_elem? (combine next tail) t ≡ lift (get_elem? next t)
unfolding combine
entry-next [] tail t h = absurd (omega arith)
entry-next (n ∷ next) tail zero h = refl
entry-next (n ∷ next) tail (suc t) h = entry-next next tail t (omega arith)

pub entry-separator :
    (next tail : List String) → get_elem? (combine next tail) (length next) ≡ some none
unfolding combine
entry-separator [] tail = refl
entry-separator (n ∷ next) tail = entry-separator next tail

entry-map :
    (tail : List String) (u : ℕ)
    → get_elem? (map {A = String} some tail) u ≡ lift (get_elem? tail u)
entry-map [] u = refl
entry-map (v ∷ tail) zero = refl
entry-map (v ∷ tail) (suc u) = entry-map tail u

pub entry-tail :
    (next tail : List String) (u t : ℕ)
    → t ≡ suc (length next + u)
    → get_elem? (combine next tail) t ≡ lift (get_elem? tail u)
unfolding combine
entry-tail next tail u zero h = absurd (omega arith)
entry-tail [] tail u (suc t) h =
    ap (get_elem? (map {A = String} some tail)) (omega arith) ∙ entry-map tail u
entry-tail (n ∷ next) tail u (suc t) h = entry-tail next tail u t (omega arith)

length-map-some : (xs : List String) → length (map {A = String} {B = Entry} some xs) ≡ length xs
length-map-some [] = refl
length-map-some (x ∷ xs) = ap suc (length-map-some xs)

pub length-combine :
    (next tail : List String) → length (combine next tail) ≡ suc (length next + length tail)
unfolding combine
length-combine [] tail = ap suc (length-map-some tail) ∙ omega arith
length-combine (n ∷ next) tail = ap suc (length-combine next tail) ∙ omega arith

module _ {ℓ} {A : Type ℓ} where
  pub get_elem?-drop : (d t : ℕ) (xs : List A) → get_elem? (drop d xs) t ≡ get_elem? xs (d + t)
  get_elem?-drop zero t xs = ap (get_elem? xs) (omega arith)
  get_elem?-drop (suc d) t [] = refl
  get_elem?-drop (suc d) t (x ∷ xs) =
      get_elem?-drop d t xs ∙ ap (get_elem? (x ∷ xs)) {x = suc (d + t)} (omega arith)

  pub length-drop : (d : ℕ) (xs : List A) → length (drop d xs) ≡ length xs - d
  length-drop zero xs = omega arith
  length-drop (suc d) [] = omega arith
  length-drop (suc d) (x ∷ xs) = length-drop d xs ∙ omega arith

  pub take-drop : (k : ℕ) (xs : List A) → take k xs ++ drop k xs ≡ xs
  take-drop zero xs = refl
  take-drop (suc k) [] = refl
  take-drop (suc k) (x ∷ xs) = ap (◌∷◌ x) (take-drop k xs)

  some-eq : (x y : A) → some x ≡ some y → x ≡ y
  some-eq x y h = cc

  -- A list that agrees with the first entries of another is these.
  pub drop_overlap :
      (xs ys : List A)
      → length xs ≤ length ys
      → ((t : ℕ) → t < length xs → get_elem? ys t ≡ get_elem? xs t)
      → xs ++ drop (length xs) ys ≡ ys
  drop_overlap [] ys h e = refl
  drop_overlap (x ∷ xs) [] h e = absurd (omega arith)
  drop_overlap (x ∷ xs) (y ∷ ys) h e =
      let same = some-eq y x (e 0 (omega arith)) in
      let rest = drop_overlap xs ys (omega arith) (λ t l. e (suc t) (omega arith)) in
      ap (λ z. z ∷ xs ++ drop (length xs) ys) (sym same) ∙ ap (◌∷◌ y) rest
