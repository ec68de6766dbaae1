-- ===== src/Firewall/Reorder/Order.antt =====
-- Lists in the order of their numbers, and the list in which one rule has moved to a free number.
use vyos_client.Base.{
  ℕ, zero, suc, ◌+◌, ◌≤◌, ◌<◌, Option, none, some, List, [], ◌∷◌, ◌≡◌, refl, sym, ap, ◌∙◌, subst,
  arith, length, get_elem?, All, All-map, or_else,
}
use vyos_client.Base.Number.{show, to_number, to_number-show}
use vyos_client.Firewall.Types.{FirewallRule}
use vyos_client.Firewall.Reorder.{
  remove_at, insert_at, move_item, ideal_number_between, number_at, number_before_index,
  reorder_changes,
}
use vyos_client.Firewall.Reorder.Between.{Above, Below, known, ideal_number_between-between}

module _ {ℓ} {A : Type ℓ} (f : A → ℕ) where
  abbrev pub InOrder : List A → Type 0
  InOrder [] = Unit {0}
  InOrder (x ∷ xs) = All (λ y. f x < f y) xs × InOrder xs

  -- The number at an index, and the one before it.
  abbrev pub value_at : List A → ℕ → Option ℕ
  value_at xs i = elim (get_elem? xs i) [ none ↦ none | some x ↦ some (f x) ]

  abbrev pub value_before : List A → ℕ → Option ℕ
  value_before xs zero = none
  value_before xs (suc i) = value_at xs i

  pub remove_at-All : (P : A → Type 0) (xs : List A) (i : ℕ) → All P xs → All P (remove_at xs i)
  remove_at-All P [] i h = h
  remove_at-All P (x ∷ xs) zero (p, h) = h
  remove_at-All P (x ∷ xs) (suc i) (p, h) = (p, remove_at-All P xs i h)

  pub insert_at-All :
      (P : A → Type 0) (xs : List A) (i : ℕ) (a : A) → P a → All P xs → All P (insert_at xs i a)
  insert_at-All P xs zero a p h = (p, h)
  insert_at-All P [] (suc i) a p h = (p, h)
  insert_at-All P (x ∷ xs) (suc i) a p (q, h) = (q, insert_at-All P xs i a p h)

  remove_at-InOrder : (xs : List A) (i : ℕ) → InOrder xs → InOrder (remove_at xs i)
  remove_at-InOrder [] i h = h
  remove_at-InOrder (x ∷ xs) zero (p, h) = h
  remove_at-InOrder (x ∷ xs) (suc i) (p, h) =
      (remove_at-All (λ y. f x < f y) xs i p, remove_at-InOrder xs i h)

  -- Above an entry of a list, above all that lies below the whole list.
  Above-lt :
      (k m : ℕ) (xs : List A) (i : ℕ)
      → All (λ y. k < f y) xs
      → i < length xs
      → Above (value_at xs i) m
      → k < m
  Above-lt k m [] i h l a = absurd (omega arith)
  Above-lt k m (x ∷ xs) zero (p, h) l a = omega arith
  Above-lt k m (x ∷ xs) (suc i) (p, h) l a = Above-lt k m xs i h (omega arith) a

  head-InOrder : (a : A) (xs : List A) → Below (f a) (value_at xs 0) → InOrder xs → InOrder (a ∷ xs)
  head-InOrder a [] b h = (tt, h)
  head-InOrder a (x ∷ xs) b (p, h) =
      ((b, All-map (λ y. f x < f y) (λ y. f a < f y) (λ y q. omega arith) xs p), (p, h))

  insert_at-InOrder :
      (xs : List A) (i : ℕ) (a : A)
      → i ≤ length xs
      → InOrder xs
      → Above (value_before xs i) (f a)
      → Below (f a) (value_at xs i)
      → InOrder (insert_at xs i a)
  insert_at-InOrder xs zero a l h above below = head-InOrder a xs below h
  insert_at-InOrder [] (suc i) a l h above below = absurd (omega arith)
  insert_at-InOrder (x ∷ xs) (suc zero) a l (p, h) above below = (
    insert_at-All (λ y. f x < f y) xs 0 a above p,
    insert_at-InOrder xs zero a (omega arith) h (omega arith) below,
  )
  insert_at-InOrder (x ∷ xs) (suc (suc i)) a l (p, h) above below = (
    insert_at-All (λ y. f x < f y) xs (suc i) a (Above-lt (f x) (f a) xs i p (omega arith) above) p,
    insert_at-InOrder xs (suc i) a (omega arith) h above below,
  )

  insert_at-value_before :
      (xs : List A) (i : ℕ) (a : A)
      → i ≤ length xs
      → value_before (insert_at xs i a) i ≡ value_before xs i
  insert_at-value_before xs zero a l = refl
  insert_at-value_before [] (suc i) a l = absurd (omega arith)
  insert_at-value_before (x ∷ xs) (suc zero) a l = refl
  insert_at-value_before (x ∷ xs) (suc (suc i)) a l =
      insert_at-value_before xs (suc i) a (omega arith)

  insert_at-value_after :
      (xs : List A) (i : ℕ) (a : A)
      → i ≤ length xs
      → value_at (insert_at xs i a) (suc i) ≡ value_at xs i
  insert_at-value_after xs zero a l = refl
  insert_at-value_after [] (suc i) a l = absurd (omega arith)
  insert_at-value_after (x ∷ xs) (suc i) a l = insert_at-value_after xs i a (omega arith)

  get_elem?-insert_at :
      (xs : List A) (i : ℕ) (a : A) → i ≤ length xs → get_elem? (insert_at xs i a) i ≡ some a
  get_elem?-insert_at xs zero a l = refl
  get_elem?-insert_at [] (suc i) a l = absurd (omega arith)
  get_elem?-insert_at (x ∷ xs) (suc i) a l = get_elem?-insert_at xs i a (omega arith)

  length-remove_at :
      (xs : List A) (i : ℕ) → i < length xs → suc (length (remove_at xs i)) ≡ length xs
  length-remove_at [] i l = absurd (omega arith)
  length-remove_at (x ∷ xs) zero l = refl
  length-remove_at (x ∷ xs) (suc i) l = ap suc (length-remove_at xs i (omega arith))

  pub get_elem?-All :
      (P : A → Type 0) (xs : List A) (i : ℕ)
      → i < length xs
      → All P xs
      → (a : A) × (get_elem? xs i ≡ some a) × P a
  get_elem?-All P [] i l h = absurd (omega arith)
  get_elem?-All P (x ∷ xs) zero l (p, h) = (x, refl, p)
  get_elem?-All P (x ∷ xs) (suc i) l (p, h) = get_elem?-All P xs i (omega arith) h

abbrev pub rule_value : FirewallRule → ℕ
rule_value r = or_else (to_number r.number) 0

abbrev pub IsNumbered : FirewallRule → Type 0
IsNumbered r = (n : ℕ) × (to_number r.number ≡ some n)

number_at-known :
    (rules : List FirewallRule) (i : ℕ)
    → All IsNumbered rules
    → number_at rules i ≡ known (value_at rule_value rules i)
number_at-known [] i h = refl
number_at-known (r ∷ rules) zero ((n, e), h) = rw e refl
number_at-known (r ∷ rules) (suc i) (p, h) = number_at-known rules i h

number_before_index-known :
    (rules : List FirewallRule) (i : ℕ)
    → All IsNumbered rules
    → number_before_index rules i ≡ known (value_before rule_value rules i)
number_before_index-known rules zero h = refl
number_before_index-known rules (suc i) h = number_at-known rules i h

-- The neighbours that the moved rule gets are those between which it is put.
ideal-neighbours :
    (xs : List FirewallRule) (to_index : ℕ) (moved : FirewallRule)
    → to_index ≤ length xs
    → All IsNumbered (insert_at xs to_index moved)
    → ideal_number_between
        (number_before_index (insert_at xs to_index moved) to_index)
        (number_at (insert_at xs to_index moved) (to_index + 1))
      ≡ ideal_number_between
          (known (value_before rule_value xs to_index))
          (known (value_at rule_value xs to_index))
ideal-neighbours xs to_index moved l h =
    let ys = insert_at xs to_index moved in
    let at_next : to_index + 1 ≡ suc to_index = omega arith in
    ap (λ p. ideal_number_between p (number_at ys (to_index + 1)))
      (number_before_index-known ys to_index h
        ∙ ap known (insert_at-value_before rule_value xs to_index moved l))
    ∙ ap (λ q. ideal_number_between (known (value_before rule_value xs to_index)) q)
        (ap (number_at ys) at_next
          ∙ number_at-known ys (suc to_index) h
          ∙ ap known (insert_at-value_after rule_value xs to_index moved l))

-- The one change where a number is found, and the list with that number in it.
abbrev pub MovesOne : List FirewallRule → ℕ → ℕ → ℕ → Type 0
MovesOne rules from_index to_index m =
    (moved : FirewallRule) × (get_elem? rules from_index ≡ some moved)
    × (reorder_changes rules from_index to_index ≡ (moved, show m) ∷ [])
    × InOrder rule_value
        (insert_at (remove_at rules from_index) to_index (record moved { number = show m }))

rule_value-show : (r : FirewallRule) (m : ℕ) → rule_value (record r { number = show m }) ≡ m
rule_value-show r m = rw (to_number-show m) refl

changes-one :
    (rules : List FirewallRule) (from_index to_index m : ℕ) (moved : FirewallRule)
    → ideal_number_between
        (number_before_index (move_item rules from_index to_index) to_index)
        (number_at (move_item rules from_index to_index) (to_index + 1))
      ≡ some (some m)
    → get_elem? (move_item rules from_index to_index) to_index ≡ some moved
    → reorder_changes rules from_index to_index ≡ (moved, show m) ∷ []
unfolding reorder_changes
changes-one rules from_index to_index m moved h e = rw (h, e, reorder_changes) refl

-- Where a free number is found for the moved rule, only that rule is written again, and with its
-- new number the list that the user asked for is in ascending order. The rules had numbers, in
-- ascending order, and both indices lie within the list.
pub reorder_changes-InOrder :
    (rules : List FirewallRule) (from_index to_index m : ℕ)
    → All IsNumbered rules
    → InOrder rule_value rules
    → from_index < length rules
    → to_index < length rules
    → ideal_number_between
        (number_before_index (move_item rules from_index to_index) to_index)
        (number_at (move_item rules from_index to_index) (to_index + 1))
      ≡ some (some m)
    → MovesOne rules from_index to_index m
unfolding move_item
reorder_changes-InOrder rules from_index to_index m numbered ordered l k h =
    let (moved, e, p) = get_elem?-All rule_value IsNumbered rules from_index l numbered in
    let xs = remove_at rules from_index in
    let moves : move_item rules from_index to_index ≡ insert_at xs to_index moved =
      rw (e, move_item) refl in
    let le : to_index ≤ length xs = omega (arith, length-remove_at rule_value rules from_index l) in
    let numbered' =
      insert_at-All rule_value IsNumbered xs to_index moved p
        (remove_at-All rule_value IsNumbered rules from_index numbered) in
    let found =
      sym (ideal-neighbours xs to_index moved le numbered')
      ∙ ap
          (λ ys.
            ideal_number_between (number_before_index ys to_index) (number_at ys (to_index + 1)))
          (sym moves)
      ∙ h in
    let (above, below) =
      ideal_number_between-between (value_before rule_value xs to_index)
        (value_at rule_value xs to_index) m found in
    (
      moved,
      e,
      changes-one rules from_index to_index m moved h (
          ap (λ ys. get_elem? ys to_index) moves
          ∙ get_elem?-insert_at rule_value xs to_index moved le),
      insert_at-InOrder rule_value xs to_index (record moved { number = show m }) le
          (remove_at-InOrder rule_value rules from_index ordered)
          (subst (λ v. Above (value_before rule_value xs to_index) v)
            (sym (rule_value-show moved m)) above)
          (subst (λ v. Below v (value_at rule_value xs to_index)) (sym (rule_value-show moved m))
            below),
    )
