-- ===== src/Firewall/Reorder/Deletes.antt =====
-- The order of the commands of a reordering.
use vyos_client.Base.{
  ℕ, String, Bool, ◌||◌, Option, none, some, List, [], ◌∷◌, ◌++◌, map, flat_map, ◌≡◌, ◌≢◌, refl,
  eqb, leb, length, All, All-append, Bool-cases, Option-cases, inl, inr, zero, suc, ◌+◌, not, ◌==◌,
  select, get_elem?, subst,
}
use vyos_client.Json.{
  Value, Fields, undefined, null, boolean, number, str, arr, obj, empty_obj, field, item_texts,
}
use vyos_client.Config.Op.{ConfigOp, set, delete, set_value, delete_node}
use vyos_client.Firewall.Types.{FirewallRule, RulesetRef}
use vyos_client.Firewall.Parse.{rule_path}
use vyos_client.Firewall.Reorder.{
  subtree_to_set_ops, fields_to_set_ops, recreate_ops, renumber_from, renumber_one, move_item,
  remove_at, reorder_changes, reorder_rule_ops,
}
use vyos_client.Firewall.Reorder.Order.{remove_at-All, insert_at-All, rule_value}

abbrev pub IsSetOp : ConfigOp → Type 0
IsSetOp op = op.op ≡ set

sets-IsSetOp : (path : List String) (texts : List String) → All IsSetOp (map (set_value path) texts)
sets-IsSetOp path [] = tt
sets-IsSetOp path (t ∷ texts) = (refl, sets-IsSetOp path texts)

mutual
  unfolding subtree_to_set_ops

  subtree_to_set_ops-IsSetOp :
      (path : List String) (v : Value) → All IsSetOp (subtree_to_set_ops path v)
  subtree_to_set_ops-IsSetOp path undefined = (refl, tt)
  subtree_to_set_ops-IsSetOp path null = (refl, tt)
  subtree_to_set_ops-IsSetOp path (boolean b) = (refl, tt)
  subtree_to_set_ops-IsSetOp path (number t) = (refl, tt)
  subtree_to_set_ops-IsSetOp path (str t) = (refl, tt)
  subtree_to_set_ops-IsSetOp path (arr items) = sets-IsSetOp path (item_texts items)
  subtree_to_set_ops-IsSetOp path (obj empty_obj) = (refl, tt)
  subtree_to_set_ops-IsSetOp path (obj (field k v rest)) =
      All-append IsSetOp (subtree_to_set_ops (path ++ k ∷ []) v) (fields_to_set_ops path rest)
        (subtree_to_set_ops-IsSetOp (path ++ k ∷ []) v) (fields_to_set_ops-IsSetOp path rest)

  fields_to_set_ops-IsSetOp :
      (path : List String) (fs : Fields) → All IsSetOp (fields_to_set_ops path fs)
  fields_to_set_ops-IsSetOp path empty_obj = tt
  fields_to_set_ops-IsSetOp path (field k v rest) =
      All-append IsSetOp (subtree_to_set_ops (path ++ k ∷ []) v) (fields_to_set_ops path rest)
        (subtree_to_set_ops-IsSetOp (path ++ k ∷ []) v) (fields_to_set_ops-IsSetOp path rest)

recreate-IsSetOp :
    (ops : List ConfigOp) (path : List String) (v : Value)
    → v ≢ undefined
    → All IsSetOp (elim v [ undefined ↦ ops | raw ↦ subtree_to_set_ops path raw ])
recreate-IsSetOp ops path undefined h = absurd (h refl)
recreate-IsSetOp ops path null h = subtree_to_set_ops-IsSetOp path null
recreate-IsSetOp ops path (boolean b) h = subtree_to_set_ops-IsSetOp path (boolean b)
recreate-IsSetOp ops path (number t) h = subtree_to_set_ops-IsSetOp path (number t)
recreate-IsSetOp ops path (str t) h = subtree_to_set_ops-IsSetOp path (str t)
recreate-IsSetOp ops path (arr items) h = subtree_to_set_ops-IsSetOp path (arr items)
recreate-IsSetOp ops path (obj fs) h = subtree_to_set_ops-IsSetOp path (obj fs)

abbrev pub IsParsed : FirewallRule → Type 0
IsParsed r = r.raw ≢ undefined

recreate_each-IsSetOp :
    (ref : RulesetRef) (changes : List (FirewallRule × String))
    → All (λ c. IsParsed c.0) changes
    → All IsSetOp (flat_map (recreate_ops ref) changes)
unfolding recreate_ops
recreate_each-IsSetOp ref [] h = tt
recreate_each-IsSetOp ref ((r, n) ∷ changes) (p, h) =
    All-append IsSetOp (recreate_ops ref (r, n)) (flat_map (recreate_ops ref) changes)
      (recreate-IsSetOp _ (rule_path ref n []) r.raw p) (recreate_each-IsSetOp ref changes h)

deletes-delete :
    (ref : RulesetRef) (changes : List (FirewallRule × String))
    → All (λ op. op.op ≡ delete) (map (λ c. delete_node (rule_path ref c.0.number [])) changes)
deletes-delete ref [] = tt
deletes-delete ref (c ∷ changes) = (refl, deletes-delete ref changes)

module _ (P : FirewallRule → Type 0) where
  renumber_from-All :
      (i : ℕ) (rules : List FirewallRule) → All P rules → All (λ c. P c.0) (renumber_from i rules)
  unfolding renumber_from
  renumber_from-All i [] h = tt
  renumber_from-All i (r ∷ rules) (p, h) = (p, renumber_from-All (i + 1) rules h)

  kept-All :
      (test : FirewallRule × String → Bool) (changes : List (FirewallRule × String))
      → All (λ c. P c.0) changes
      → All (λ c. P c.0) (select test changes)
  kept-All test [] h = tt
  kept-All test (c ∷ changes) (p, h) = elim (Bool-cases (test c)) [
    | inl e ↦ rw (e, All) (p, kept-All test changes h)
    | inr e ↦ rw (e, All) (kept-All test changes h)
  ]

  found-All :
      (rules : List FirewallRule) (i : ℕ) (found : Option ℕ)
      → All P rules
      → All (λ c. P c.0) (renumber_one (get_elem? rules i) found)
  found-All [] i found h = tt
  found-All (r ∷ rules) zero found (p, h) = (p, tt)
  found-All (r ∷ rules) (suc i) found (p, h) = found-All rules i found h

  entry-All :
      (xs : List FirewallRule) (i : ℕ) (r : FirewallRule) → get_elem? xs i ≡ some r → All P xs → P r
  entry-All [] i r e h = cc
  entry-All (x ∷ xs) zero r e (p, h) = let k : x ≡ r = cc in subst P k p
  entry-All (x ∷ xs) (suc i) r e (p, h) = entry-All xs i r e h

  move_item-All :
      (rules : List FirewallRule) (from_index to_index : ℕ)
      → All P rules
      → All P (move_item rules from_index to_index)
  unfolding move_item
  move_item-All rules from_index to_index h = elim (Option-cases (get_elem? rules from_index)) [
    | inl e ↦ rw (e, All) h
    | inr (r, e) ↦
        rw (e, All)
          (insert_at-All rule_value P (remove_at rules from_index) to_index r
            (entry-All rules from_index r e h) (remove_at-All rule_value P rules from_index h))
  ]

  chosen-All :
      (o : Option (Option ℕ)) (rules : List FirewallRule) (i : ℕ)
      → All P rules
      → All
          (λ c. P c.0)
          (elim o [
            | some found ↦ renumber_one (get_elem? rules i) found
            | none ↦ select (λ c. not (c.0.number == c.1)) (renumber_from 0 rules)
          ])
  chosen-All none rules i h = kept-All _ _ (renumber_from-All 0 rules h)
  chosen-All (some found) rules i h = found-All rules i found h

  -- Only rules of the list are renumbered.
  reorder_changes-All :
      (rules : List FirewallRule) (from_index to_index : ℕ)
      → All P rules
      → All (λ c. P c.0) (reorder_changes rules from_index to_index)
  unfolding reorder_changes
  reorder_changes-All rules from_index to_index h =
      chosen-All _ (move_item rules from_index to_index) to_index
        (move_item-All rules from_index to_index h)

-- A reordering deletes first: no command that sets anything comes before one that deletes. The rules
-- are parsed ones, which carry the tree that they were parsed from.
pub reorder_rule_ops-deletes_first :
    (ref : RulesetRef) (rules : List FirewallRule) (from_index to_index : ℕ)
    → All IsParsed rules
    → (deletes : List ConfigOp) × (sets : List ConfigOp) × (reorder_rule_ops ref rules from_index
          to_index
        ≡ deletes ++ sets)
      × All (λ op. op.op ≡ delete) deletes
      × All IsSetOp sets
unfolding reorder_rule_ops
reorder_rule_ops-deletes_first ref rules from_index to_index h =
    elim (Bool-cases
      (eqb from_index to_index || (leb (length rules) from_index || leb (length rules) to_index))) [
        | inl e ↦ ([], [], rw e refl, tt, tt)
        | inr e ↦ (
          _,
          _,
          rw e refl,
          deletes-delete ref (reorder_changes rules from_index to_index),
          recreate_each-IsSetOp ref (reorder_changes rules from_index to_index)
              (reorder_changes-All IsParsed rules from_index to_index h),
        )
      ]
