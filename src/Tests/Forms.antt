-- ===== src/Tests/Forms.antt =====
-- Saving forms on the fake router: the firewall rule over a rule that is there, the others on a
-- router with nothing configured.
use vyos_client.Base.{
  String, Bool, true, false, not, ◌&&◌, List, [], ◌∷◌, ◌≡◌, refl, none, some, inl, inr, ◌==◌,
  select, eq_iff, arith,
}
use vyos_client.Base.Text.{trim}
use vyos_client.Json.{Value, obj, str, field, empty_obj, child, as_string, to_text}
use vyos_client.Json.Paths.{get_path, has_path}
use vyos_client.Config.Op.{ConfigOp, set, delete, comment}
use vyos_client.Config.Router.Runs.{run_all}
use vyos_client.Config.Router.Fake.Laws.{fake_router}
use vyos_client.Config.Diff.{ScalarField, FlagField, diff_to_ops}
use vyos_client.Config.Diff.Effect.{Saved, paths}
use vyos_client.Config.Diff.Saved.{diff_to_ops-Saved, diff_to_ops-apart}
use vyos_client.Config.MultiValue
use vyos_client.Config.MultiValue.{MultiLeaf, multi_value_diff_ops, multi_value_diff_ops-holds, has}
use vyos_client.Firewall.Types.{FirewallFamily, RuleAction, RulesetKind, RulesetRef}
use vyos_client.Firewall.Parse.{parse_rule, rule_path}
use vyos_client.Firewall.RuleForm
use vyos_client.Firewall.RuleForm.RoundTrip.{rule_form_to_ops-round_trip}
use vyos_client.Nat.Types.{NatRuleKind}
use vyos_client.Nat.Parse.{nat_rule_path, nat_static_rule_path, parse_static_rule}
use vyos_client.Nat.Parse
use vyos_client.Nat.RuleForm as NatForm
use vyos_client.Nat.RuleForm.RoundTrip.{nat_rule_form_to_ops-round_trip, all_fields}
use vyos_client.Nat.StaticForm
use vyos_client.Tests.{empty_router, fake_single, empty-get_path}

abbrev input : RulesetRef
input = record { id = "input"; kind = RulesetKind.base; family = FirewallFamily.ipv4 }

-- Rule 10 accepts TCP and is disabled.
unfoldable configured : fake_router.State
unfolding fake_router
configured =
    field "firewall"
      (obj (
        field "ipv4"
          (obj (
            field "input"
              (obj (
                field "filter"
                  (obj (
                    field "rule"
                      (obj (
                        field "10"
                          (obj (
                            field "action" (str "accept") (
                              field "protocol" (str "tcp")
                                (field "disable" (obj empty_obj) empty_obj))))
                          empty_obj))
                      empty_obj))
                  empty_obj))
              empty_obj))
          empty_obj))
      empty_obj

abbrev rule_10 : Value
rule_10 = get_path (fake_router.tree configured) (rule_path input "10" [])

abbrev dropping : RuleForm.RuleFormValues
dropping = record RuleForm.blank_rule_form_values {
  action = some RuleAction.drop;
  protocol = "";
  source = record RuleForm.blank_match { address = " 10.0.0.1 " };
}

rule_form_to_ops-round_trip_example :
    RuleForm.rule_to_form_values (
      parse_rule FirewallFamily.ipv4 "10" (
        get_path
          (fake_router.tree (
            run_all fake_router configured (
              RuleForm.rule_form_to_ops input "10"
                (some (parse_rule FirewallFamily.ipv4 "10" rule_10))
                dropping)))
          (rule_path input "10" [])))
    ≡ record RuleForm.blank_rule_form_values {
      action = some RuleAction.drop;
      source = record RuleForm.blank_match { address = "10.0.0.1" };
    }
unfolding fake_router configured trim rule_path parse_rule RuleForm.before_values as_string to_text
    child
rule_form_to_ops-round_trip_example =
    rule_form_to_ops-round_trip fake_router configured input "10"
      (some (parse_rule FirewallFamily.ipv4 "10" rule_10)) dropping (inl refl)
      (fake_single (rule_path input "10" []) refl
        (paths (RuleForm.scalar_fields FirewallFamily.ipv4) RuleForm.flag_fields))

abbrev nat_values : NatForm.NatRuleFormValues
nat_values = record NatForm.blank_rule_form_values {
  interface_name = "eth0";
  translation_address = "masquerade";
  log = true;
}

nat_rule_form_to_ops-round_trip_example :
    NatForm.rule_to_form_values (
      Parse.parse_rule NatRuleKind.source "100" (
        get_path
          (fake_router.tree (
            run_all fake_router empty_router
              (NatForm.nat_rule_form_to_ops NatRuleKind.source "100" none nat_values)))
          (nat_rule_path NatRuleKind.source "100" [])))
    ≡ nat_values
unfolding fake_router empty_router trim nat_rule_path NatForm.before_values
nat_rule_form_to_ops-round_trip_example =
    nat_rule_form_to_ops-round_trip fake_router empty_router NatRuleKind.source "100" none
      nat_values (inr (refl, empty-get_path (nat_rule_path NatRuleKind.source "100" []) refl))
      (fake_single (nat_rule_path NatRuleKind.source "100" []) refl
        (paths (all_fields NatRuleKind.source) NatForm.flag_fields))
      refl

abbrev static_values : StaticForm.NatStaticFormValues
static_values = record StaticForm.blank_static_form_values {
  destination_address = "203.0.113.1";
  translation_address = "10.0.0.1 ";
}

-- A form of two fields.
abbrev name_field : List (ScalarField (String × Bool))
name_field = record { get = λ v. v.0; segments = "name" ∷ [] } ∷ []

abbrev log_field : List (FlagField (String × Bool))
log_field = record { get = λ v. v.1; segments = "log" ∷ [] } ∷ []

abbrev edit : List ConfigOp
edit = diff_to_ops ("rule" ∷ []) name_field log_field ("", false) ("lan", true)

diff_to_ops-Saved_example :
    Saved name_field log_field
      ("", false)
      ("lan", true)
      (get_path (fake_router.tree empty_router) ("rule" ∷ []))
      (get_path (fake_router.tree (run_all fake_router empty_router edit)) ("rule" ∷ []))
diff_to_ops-Saved_example =
    diff_to_ops-Saved fake_router ("rule" ∷ []) name_field log_field empty_router ("", false)
      ("lan", true) refl (fake_single ("rule" ∷ []) refl (paths name_field log_field))

diff_to_ops-apart_example :
    (get_path (fake_router.tree (run_all fake_router configured edit)) (rule_path input "10" [])
      ≡ rule_10)
    × (has_path (fake_router.tree (run_all fake_router configured edit)) (rule_path input "10" [])
        ≡ has_path (fake_router.tree configured) (rule_path input "10" []))
unfolding rule_path
diff_to_ops-apart_example =
    diff_to_ops-apart fake_router ("rule" ∷ []) name_field log_field configured ("", false)
      ("lan", true) (rule_path input "10" []) (refl, (refl, tt))

-- A leaf that is a list of values.
hold : List String → ConfigOp → List String
hold s op = elim op.value [
  | none ↦ s
  | some v ↦ elim op.op [ set ↦ v ∷ s | delete ↦ select (λ w. not (v == w)) s | comment ↦ s ]
]

has-kept :
    (v : String) (s : List String) (w : String)
    → has (select (λ x. not (v == x)) s) w ≡ (not (v == w) && has s w)
has-kept v [] w = ground arith
has-kept v (x ∷ s) w = ground (arith, has-kept v s w, eq_iff x w, eq_iff v x, eq_iff v w)

abbrev listed : (path : List String) → MultiLeaf path
listed path = record {
  State = List String;
  holds = has;
  run = hold;
  holds-set = unfold hold in λ s v w. refl;
  holds-delete = unfold hold in λ s v w. has-kept v s w;
}

multi_value_diff_ops-holds_example :
    has
      (MultiValue.run_all
        ("address" ∷ [])
        (listed ("address" ∷ []))
        ("a" ∷ "b" ∷ [])
        (multi_value_diff_ops ("address" ∷ []) ("a" ∷ "b" ∷ []) ("b" ∷ "c" ∷ [])))
      "a"
    ≡ false
multi_value_diff_ops-holds_example =
    multi_value_diff_ops-holds ("address" ∷ []) (listed ("address" ∷ [])) ("a" ∷ "b" ∷ [])
      ("a" ∷ "b" ∷ []) ("b" ∷ "c" ∷ []) (λ w. refl) "a"
