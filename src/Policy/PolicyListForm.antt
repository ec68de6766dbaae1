-- ===== src/Policy/PolicyListForm.antt =====
-- lib/policyListForm.ts: the forms of an as-path or community list and of a rule in it.
pub mod RoundTrip
pub mod ListRoundTrip
use vyos_client.Base.{String, Bool, true, false, Option, none, some, List, [], ◌∷◌, ◌++◌, or_else}
use vyos_client.Config.Op.{ConfigOp, delete_node}
use vyos_client.Config.Diff.{ScalarField, FlagField, scalar_ops, flag_ops, scalar_field_ops}
use vyos_client.Policy.Types.{PolicyListKind, PolicyList, PolicyListRule}
use vyos_client.Policy.Paths.{policy_list_path, policy_list_rule_path}

pub record PolicyListFormValues : Type 0 where
  pub description : String

abbrev pub blank_policy_list_form_values : PolicyListFormValues
blank_policy_list_form_values = record { description = "" }

unfoldable pub policy_list_to_form_values : PolicyList → PolicyListFormValues
policy_list_to_form_values x = record { description = or_else x.description "" }

-- The values of the form as it was opened.
unfoldable pub policy_list_before : Option PolicyList → PolicyListFormValues
unfolding policy_list_to_form_values
policy_list_before none = blank_policy_list_form_values
policy_list_before (some before) = policy_list_to_form_values before

unfoldable pub policy_list_form_to_ops :
    PolicyListKind → String → Option PolicyList → PolicyListFormValues → List ConfigOp
policy_list_form_to_ops kind name before values =
    scalar_field_ops (policy_list_path kind name ("description" ∷ []))
      (policy_list_before before).description values.description

unfoldable pub delete_policy_list_op : PolicyListKind → String → ConfigOp
unfolding policy_list_path
delete_policy_list_op kind name = delete_node (policy_list_path kind name [])

pub record PolicyListRuleFormValues : Type 0 where
  pub action : String
  pub description : String
  pub regex : String

abbrev pub blank_policy_list_rule_form_values : PolicyListRuleFormValues
blank_policy_list_rule_form_values = record { action = ""; description = ""; regex = "" }

unfoldable pub policy_list_rule_to_form_values : PolicyListRule → PolicyListRuleFormValues
policy_list_rule_to_form_values rule = record {
  action = or_else rule.action "";
  description = or_else rule.description "";
  regex = or_else rule.regex "";
}

abbrev pub scalar_fields : List (ScalarField PolicyListRuleFormValues)
scalar_fields =
    record { get = λ v. v.action; segments = "action" ∷ [] }
    ∷ record { get = λ v. v.description; segments = "description" ∷ [] }
    ∷ record { get = λ v. v.regex; segments = "regex" ∷ [] }
    ∷ []

-- The values of the form as it was opened.
unfoldable pub policy_list_rule_before : Option PolicyListRule → PolicyListRuleFormValues
unfolding policy_list_rule_to_form_values
policy_list_rule_before none = blank_policy_list_rule_form_values
policy_list_rule_before (some before) = policy_list_rule_to_form_values before

unfoldable pub policy_list_rule_form_to_ops :
    PolicyListKind
    → String
    → String
    → Option PolicyListRule
    → PolicyListRuleFormValues
    → List ConfigOp
policy_list_rule_form_to_ops kind list_name rule_number before values =
    scalar_ops (policy_list_rule_path kind list_name rule_number) scalar_fields
      (policy_list_rule_before before) values

unfoldable pub delete_policy_list_rule_op : PolicyListKind → String → String → ConfigOp
unfolding policy_list_rule_path
delete_policy_list_rule_op kind list_name rule_number =
    delete_node (policy_list_rule_path kind list_name rule_number [])
