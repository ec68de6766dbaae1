-- ===== src/Policy/PrefixListForm.antt =====
-- lib/prefixListForm.ts: the forms of a prefix list and of a rule in it.
pub mod RoundTrip
pub mod ListRoundTrip
use vyos_client.Base.{String, Bool, true, false, Option, none, some, List, [], ◌∷◌, ◌++◌, or_else}
use vyos_client.Config.Op.{ConfigOp, delete_node}
use vyos_client.Config.Diff.{ScalarField, FlagField, scalar_ops, flag_ops, scalar_field_ops}
use vyos_client.Policy.Types.{PrefixListFamily, PrefixList, PrefixListRule}
use vyos_client.Policy.Paths.{prefix_list_path, prefix_list_rule_path}

pub record PrefixListFormValues : Type 0 where
  pub description : String

abbrev pub blank_prefix_list_form_values : PrefixListFormValues
blank_prefix_list_form_values = record { description = "" }

unfoldable pub prefix_list_to_form_values : PrefixList → PrefixListFormValues
prefix_list_to_form_values x = record { description = or_else x.description "" }

-- The values of the form as it was opened.
unfoldable pub prefix_list_before : Option PrefixList → PrefixListFormValues
unfolding prefix_list_to_form_values
prefix_list_before none = blank_prefix_list_form_values
prefix_list_before (some before) = prefix_list_to_form_values before

unfoldable pub prefix_list_form_to_ops :
    PrefixListFamily → String → Option PrefixList → PrefixListFormValues → List ConfigOp
prefix_list_form_to_ops family name before values =
    scalar_field_ops (prefix_list_path family name ("description" ∷ []))
      (prefix_list_before before).description values.description

unfoldable pub delete_prefix_list_op : PrefixListFamily → String → ConfigOp
unfolding prefix_list_path
delete_prefix_list_op family name = delete_node (prefix_list_path family name [])

pub record PrefixListRuleFormValues : Type 0 where
  pub action : String
  pub description : String
  pub prefix : String
  pub ge : String
  pub le : String

abbrev pub blank_prefix_list_rule_form_values : PrefixListRuleFormValues
blank_prefix_list_rule_form_values = record {
  action = "";
  description = "";
  prefix = "";
  ge = "";
  le = "";
}

unfoldable pub prefix_list_rule_to_form_values : PrefixListRule → PrefixListRuleFormValues
prefix_list_rule_to_form_values rule = record {
  action = or_else rule.action "";
  description = or_else rule.description "";
  prefix = or_else rule.prefix "";
  ge = or_else rule.ge "";
  le = or_else rule.le "";
}

abbrev pub scalar_fields : List (ScalarField PrefixListRuleFormValues)
scalar_fields =
    record { get = λ v. v.action; segments = "action" ∷ [] }
    ∷ record { get = λ v. v.description; segments = "description" ∷ [] }
    ∷ record { get = λ v. v.prefix; segments = "prefix" ∷ [] }
    ∷ record { get = λ v. v.ge; segments = "ge" ∷ [] }
    ∷ record { get = λ v. v.le; segments = "le" ∷ [] }
    ∷ []

-- The values of the form as it was opened.
unfoldable pub prefix_list_rule_before : Option PrefixListRule → PrefixListRuleFormValues
unfolding prefix_list_rule_to_form_values
prefix_list_rule_before none = blank_prefix_list_rule_form_values
prefix_list_rule_before (some before) = prefix_list_rule_to_form_values before

unfoldable pub prefix_list_rule_form_to_ops :
    PrefixListFamily
    → String
    → String
    → Option PrefixListRule
    → PrefixListRuleFormValues
    → List ConfigOp
prefix_list_rule_form_to_ops family list_name rule_number before values =
    scalar_ops (prefix_list_rule_path family list_name rule_number) scalar_fields
      (prefix_list_rule_before before) values

unfoldable pub delete_prefix_list_rule_op : PrefixListFamily → String → String → ConfigOp
unfolding prefix_list_rule_path
delete_prefix_list_rule_op family list_name rule_number =
    delete_node (prefix_list_rule_path family list_name rule_number [])
