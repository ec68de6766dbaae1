-- ===== src/Firewall/Reorder.antt =====
-- lib/firewallRuleForm.ts: reordering rules by drag and drop. An index is a natural number, so the
-- tests for negative ones have nothing to do; a rule's number is a text, and `Number` of it is
-- `none` where the source has NaN.
pub mod Between
pub mod Order
pub mod Deletes
pub mod Plan
use vyos_client.Base.{
  ℕ, zero, suc, ◌+◌, ◌-◌, ◌*◌, ◌/◌, String, not, ◌||◌, Option, none, some, List, [], ◌∷◌, ◌++◌, map,
  ◌==◌, if◌then◌else◌, leb, eqb, length, get_elem?, select, flat_map,
}
use vyos_client.Base.Number.{show, to_number}
use vyos_client.Json.{
  Value, Fields, Items, undefined, null, arr, obj, empty_obj, field, item_texts, to_text,
}
use vyos_client.Config.Op.{ConfigOp, set_value, set_node, delete_node}
use vyos_client.Firewall.Types.{FirewallRule, RulesetRef}
use vyos_client.Firewall.Parse.{rule_path}
use vyos_client.Firewall.RuleForm.{rule_to_form_values, rule_form_to_ops}

module _ {ℓ} {A : Type ℓ} where
  -- `copy.splice(index, 1)` and `copy.splice(index, 0, item)`
  abbrev pub remove_at : List A → ℕ → List A
  remove_at [] i = []
  remove_at (x ∷ xs) zero = xs
  remove_at (x ∷ xs) (suc i) = x ∷ remove_at xs i

  abbrev pub insert_at : List A → ℕ → A → List A
  insert_at xs zero a = a ∷ xs
  insert_at [] (suc i) a = a ∷ []
  insert_at (x ∷ xs) (suc i) a = x ∷ insert_at xs i a

  -- The only caller has tested that there is an element at the first index.
  unfoldable pub move_item : List A → ℕ → ℕ → List A
  move_item xs from_index to_index = elim (get_elem? xs from_index) [
    | none ↦ xs
    | some a ↦ insert_at (remove_at xs from_index) to_index a
  ]

-- `undefined` is the outer `none`, NaN the inner one: each comparison with it fails, and what is
-- computed from it is NaN.
unfoldable pub ideal_number_between : Option (Option ℕ) → Option (Option ℕ) → Option (Option ℕ)
ideal_number_between none none = none
ideal_number_between none (some none) = some none
ideal_number_between none (some (some next)) = if leb next 1 then none else some (some (next / 2))
ideal_number_between (some none) none = some none
ideal_number_between (some (some prev)) none = some (some (prev + 10))
ideal_number_between (some none) (some next) = some none
ideal_number_between (some (some prev)) (some none) = some none
ideal_number_between (some (some prev)) (some (some next)) =
    if leb next (prev + 1) then none else some (some (prev + (next - prev) / 2))

-- `rules[i] ? Number(rules[i].number) : undefined`
abbrev pub number_at : List FirewallRule → ℕ → Option (Option ℕ)
number_at rules i = elim (get_elem? rules i) [ none ↦ none | some r ↦ some (to_number r.number) ]

-- At `toIndex - 1`, which is -1 for the front.
abbrev pub number_before_index : List FirewallRule → ℕ → Option (Option ℕ)
number_before_index rules zero = none
number_before_index rules (suc i) = number_at rules i

-- `String(idealNumber)`
abbrev pub number_text : Option ℕ → String
number_text none = "NaN"
number_text (some n) = show n

-- `String((i + 1) * 10)` for each rule, from an index on
unfoldable pub renumber_from : ℕ → List FirewallRule → List (FirewallRule × String)
renumber_from i [] = []
renumber_from i (r ∷ rules) = (r, show ((i + 1) * 10)) ∷ renumber_from (i + 1) rules

abbrev pub renumber_one : Option FirewallRule → Option ℕ → List (FirewallRule × String)
renumber_one none number = []
renumber_one (some r) number = (r, number_text number) ∷ []

unfoldable pub reorder_changes : List FirewallRule → ℕ → ℕ → List (FirewallRule × String)
unfolding move_item ideal_number_between renumber_from
reorder_changes rules from_index to_index =
    let reordered = move_item rules from_index to_index in
    elim (ideal_number_between (number_before_index reordered to_index)
      (number_at reordered (to_index + 1))) [
        | some number ↦ renumber_one (get_elem? reordered to_index) number
        | none ↦ select (λ c. not (c.0.number == c.1)) (renumber_from 0 reordered)
      ]

unfoldable mutual
  pub subtree_to_set_ops : List String → Value → List ConfigOp
  subtree_to_set_ops path (arr items) = map (set_value path) (item_texts items)
  subtree_to_set_ops path (obj empty_obj) = set_node path ∷ []
  subtree_to_set_ops path (obj (field k v rest)) =
      subtree_to_set_ops (path ++ k ∷ []) v ++ fields_to_set_ops path rest
  subtree_to_set_ops path v = set_value path (to_text v) ∷ []

  pub fields_to_set_ops : List String → Fields → List ConfigOp
  fields_to_set_ops path empty_obj = []
  fields_to_set_ops path (field k v rest) =
      subtree_to_set_ops (path ++ k ∷ []) v ++ fields_to_set_ops path rest

-- How one rule is written again under its new number.
unfoldable pub recreate_ops : RulesetRef → FirewallRule × String → List ConfigOp
unfolding subtree_to_set_ops rule_form_to_ops rule_to_form_values
recreate_ops ref (rule, new_number) = elim rule.raw [
  | undefined ↦ rule_form_to_ops ref new_number none (rule_to_form_values rule)
  | raw ↦ subtree_to_set_ops (rule_path ref new_number []) raw
]

unfoldable pub reorder_rule_ops : RulesetRef → List FirewallRule → ℕ → ℕ → List ConfigOp
unfolding reorder_changes recreate_ops
reorder_rule_ops ref rules from_index to_index =
    if eqb from_index to_index || (leb (length rules) from_index || leb (length rules) to_index)
    then []
    else map (λ c. delete_node (rule_path ref c.0.number []))
        (reorder_changes rules from_index to_index)
      ++ flat_map (recreate_ops ref) (reorder_changes rules from_index to_index)
