-- ===== src/Nat/StaticForm.antt =====
-- lib/natStaticForm.ts: the form of a static rule and its diff.
pub mod RoundTrip
use vyos_client.Base.{String, Bool, true, false, Option, none, some, List, [], ◌∷◌, ◌++◌, or_else}
use vyos_client.Config.Op.{ConfigOp, delete_node}
use vyos_client.Config.Diff.{ScalarField, FlagField, scalar_ops, flag_field_ops}
use vyos_client.Nat.Types.{NatStaticRule}
use vyos_client.Nat.Parse.{nat_static_rule_path}

pub record NatStaticFormValues : Type 0 where
  pub description : String
  pub destination_address : String
  pub interface_name : String
  pub translation_address : String
  pub log : Bool

abbrev pub blank_static_form_values : NatStaticFormValues
blank_static_form_values = record {
  description = "";
  destination_address = "";
  interface_name = "";
  translation_address = "";
  log = false;
}

unfoldable pub static_to_form_values : NatStaticRule → NatStaticFormValues
static_to_form_values rule = record {
  description = or_else rule.description "";
  destination_address = or_else rule.destination_address "";
  interface_name = or_else rule.interface_name "";
  translation_address = or_else rule.translation_address "";
  log = rule.log;
}

abbrev pub scalar_fields : List (ScalarField NatStaticFormValues)
scalar_fields =
    record { get = λ v. v.description; segments = "description" ∷ [] }
    ∷ record { get = λ v. v.destination_address; segments = "destination" ∷ "address" ∷ [] }
    ∷ record { get = λ v. v.interface_name; segments = "inbound-interface" ∷ [] }
    ∷ record { get = λ v. v.translation_address; segments = "translation" ∷ "address" ∷ [] }
    ∷ []

-- `before ? staticToFormValues(before) : blankStaticFormValues()`
unfoldable pub before_values : Option NatStaticRule → NatStaticFormValues
unfolding static_to_form_values
before_values none = blank_static_form_values
before_values (some rule) = static_to_form_values rule

unfoldable pub static_form_to_ops :
    String → Option NatStaticRule → NatStaticFormValues → List ConfigOp
static_form_to_ops rule_number before values =
    let before' = before_values before in
    scalar_ops (nat_static_rule_path rule_number) scalar_fields before' values
    ++ flag_field_ops (nat_static_rule_path rule_number ("log" ∷ [])) before'.log values.log

unfoldable pub delete_static_rule_op : String → ConfigOp
unfolding nat_static_rule_path
delete_static_rule_op rule_number = delete_node (nat_static_rule_path rule_number [])
