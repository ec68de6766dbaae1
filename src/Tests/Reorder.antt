-- ===== src/Tests/Reorder.antt =====
-- Moving firewall rules.
use vyos_client.Base.{map, select, not, ◌==◌, String, List, [], ◌∷◌, ◌++◌, ◌≡◌, refl, arith, All}
use vyos_client.Base.Number.{to_number}
use vyos_client.Json.{obj, empty_obj}
use vyos_client.Config.Op.{ConfigOp, delete}
use vyos_client.Firewall.Types.{FirewallFamily, FirewallRule, RulesetKind, RulesetRef}
use vyos_client.Firewall.Parse.{parse_rule}
use vyos_client.Firewall.Reorder.{
  reorder_changes, ideal_number_between, move_item, reorder_rule_ops,
}
use vyos_client.Firewall.Reorder.Order.{InOrder, MovesOne, reorder_changes-InOrder}
use vyos_client.Firewall.Reorder.Plan.{Plan, planned, reorder_changes-plan}
use vyos_client.Firewall.Reorder.Deletes.{IsSetOp, reorder_rule_ops-deletes_first}

abbrev rule : String → FirewallRule
rule n = parse_rule FirewallFamily.ipv4 n (obj empty_obj)

abbrev three : List FirewallRule
three = rule "10" ∷ rule "20" ∷ rule "30" ∷ []

abbrev input : RulesetRef
input = record { id = "input"; kind = RulesetKind.base; family = FirewallFamily.ipv4 }

reorder_changes-InOrder_example : MovesOne three 2 0 5
unfolding ideal_number_between move_item parse_rule to_number
reorder_changes-InOrder_example =
    reorder_changes-InOrder three 2 0 5 ((10, refl), ((20, refl), ((30, refl), tt)))
      ((omega arith, (omega arith, tt)), ((omega arith, tt), (tt, tt))) (omega arith) (omega arith)
      refl

reorder_rule_ops-deletes_first_example :
    (deletes : List ConfigOp) × (sets : List ConfigOp) × (reorder_rule_ops input three 0 2
      ≡ deletes ++ sets)
    × All (λ op. op.op ≡ delete) deletes
    × All IsSetOp sets
unfolding parse_rule
reorder_rule_ops-deletes_first_example =
    reorder_rule_ops-deletes_first input three 0 2 ((λ e. cc), ((λ e. cc), ((λ e. cc), tt)))

-- Ten and eleven leave no room.
abbrev close : List FirewallRule
close = rule "10" ∷ rule "11" ∷ rule "20" ∷ []

reorder_changes-plan_example :
    (plan : Plan) × (map (λ c. c.0) plan ≡ move_item close 2 1)
    × InOrder planned plan
    × (reorder_changes close 2 1 ≡ select (λ c. not (c.0.number == c.1)) plan)
unfolding ideal_number_between move_item parse_rule to_number
reorder_changes-plan_example = reorder_changes-plan close 2 1 refl
