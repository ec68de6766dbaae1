-- ===== src/Firewall/Reorder/Plan.antt =====
-- Where no free number is found, every rule of the list gets a number.
use vyos_client.Base.{
  ℕ, ◌+◌, ◌*◌, ◌<◌, String, not, none, List, [], ◌∷◌, map, ◌≡◌, refl, ap, ◌==◌, arith, select, All,
}
use vyos_client.Base.Number.{show, to_number-show}
use vyos_client.Base.Sorting.Ascending.{number_of}
use vyos_client.Firewall.Types.{FirewallRule}
use vyos_client.Firewall.Reorder.{
  move_item, ideal_number_between, number_at, number_before_index, renumber_from, reorder_changes,
}
use vyos_client.Firewall.Reorder.Order.{InOrder}

abbrev pub Plan : Type 0
Plan = List (FirewallRule × String)

-- The number that a rule has in a plan.
abbrev pub planned : FirewallRule × String → ℕ
planned c = number_of c.1

number_of-show : (n : ℕ) → number_of (show n) ≡ n
number_of-show n = rw (to_number-show n) refl

renumber_from-rules :
    (i : ℕ) (rules : List FirewallRule) → map (λ c. c.0) (renumber_from i rules) ≡ rules
unfolding renumber_from
renumber_from-rules i [] = refl
renumber_from-rules i (r ∷ rules) = ap (λ rs. r ∷ rs) (renumber_from-rules (i + 1) rules)

renumber_from-above :
    (k i : ℕ) (rules : List FirewallRule)
    → k < (i + 1) * 10
    → All (λ c. k < planned c) (renumber_from i rules)
unfolding renumber_from
renumber_from-above k i [] h = tt
renumber_from-above k i (r ∷ rules) h =
    (rw (number_of-show ((i + 1) * 10)) h, renumber_from-above k (i + 1) rules (omega arith))

renumber_from-InOrder :
    (i : ℕ) (rules : List FirewallRule) → InOrder planned (renumber_from i rules)
unfolding renumber_from
renumber_from-InOrder i [] = tt
renumber_from-InOrder i (r ∷ rules) = (
  renumber_from-above (number_of (show ((i + 1) * 10))) (i + 1) rules
      (rw (number_of-show ((i + 1) * 10)) (omega arith)),
  renumber_from-InOrder (i + 1) rules,
)

-- Where no free number is found, there is a plan that lists the rules in the order that the user
-- asked for, with ascending numbers, and exactly the rules whose number differs from the planned one
-- are written again.
pub reorder_changes-plan :
    (rules : List FirewallRule) (from_index to_index : ℕ)
    → ideal_number_between
        (number_before_index (move_item rules from_index to_index) to_index)
        (number_at (move_item rules from_index to_index) (to_index + 1))
      ≡ none
    → (plan : Plan) × (map (λ c. c.0) plan ≡ move_item rules from_index to_index)
      × InOrder planned plan
      × (reorder_changes rules from_index to_index ≡ select (λ c. not (c.0.number == c.1)) plan)
unfolding reorder_changes
reorder_changes-plan rules from_index to_index h =
    let reordered = move_item rules from_index to_index in
    (
      renumber_from 0 reordered,
      renumber_from-rules 0 reordered,
      renumber_from-InOrder 0 reordered,
      rw (h, reorder_changes) refl,
    )
