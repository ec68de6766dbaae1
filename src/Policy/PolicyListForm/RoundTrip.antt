-- ===== src/Policy/PolicyListForm/RoundTrip.antt =====
-- Saving the form: lib/policyListForm.ts.
use vyos_client.Base.{String, Option, none, some, [], ◌≡◌, refl, sym, ap, append-nil}
use vyos_client.Json.{Value, undefined, as_string, child}
use vyos_client.Json.Paths.{get_path}
use vyos_client.Config.Router.{Router}
use vyos_client.Config.Router.Runs.{run_all}
use vyos_client.Config.Diff.{diff_to_ops, scalar_ops, flag_ops}
use vyos_client.Config.Diff.Effect.{Saved}
use vyos_client.Config.Diff.Form.{Form, opened_values, IsOpened, HasSingleFields, form-round_trip}
use vyos_client.Config.Diff.Shown.{saved_text, shown-edited}
use vyos_client.Policy.Types.{PolicyListKind, PolicyListRule}
use vyos_client.Policy.Parse.{parse_policy_list_rule}
use vyos_client.Policy.Paths.{policy_list_path, policy_list_rule_path}
use vyos_client.Policy.PolicyListForm.{
  PolicyListRuleFormValues, blank_policy_list_rule_form_values, policy_list_rule_to_form_values,
  scalar_fields, policy_list_rule_form_to_ops, policy_list_rule_before,
}

-- What the form shows when it is opened again.
abbrev pub saved_values :
    PolicyListRuleFormValues → PolicyListRuleFormValues → PolicyListRuleFormValues
saved_values before values = record {
  action = saved_text before.action values.action;
  description = saved_text before.description values.description;
  regex = saved_text before.regex values.regex;
}

pub parse-saved_values :
    (rule_number : String) (raw raw' : Value) (before values : PolicyListRuleFormValues)
    → before ≡ policy_list_rule_to_form_values (parse_policy_list_rule rule_number raw)
    → Unit {0}
    → Saved scalar_fields [] before values raw raw'
    → policy_list_rule_to_form_values (parse_policy_list_rule rule_number raw')
      ≡ saved_values before values
unfolding parse_policy_list_rule policy_list_rule_to_form_values
parse-saved_values rule_number raw raw' before values h k
      ((e_action, (e_description, (e_regex, _))), _) =
    λ i. record {
      action = shown-edited _ _ _ (values.action) (ap (λ f. f.action) h) e_action i;
      description =
          shown-edited _ _ _ (values.description) (ap (λ f. f.description) h) e_description i;
      regex = shown-edited _ _ _ (values.regex) (ap (λ f. f.regex) h) e_regex i;
    }

pub blank_form :
    (rule_number : String)
    → blank_policy_list_rule_form_values
      ≡ policy_list_rule_to_form_values (parse_policy_list_rule rule_number undefined)
unfolding parse_policy_list_rule policy_list_rule_to_form_values child as_string
blank_form rule_number = refl

abbrev pub form : (rule_number : String) → Form PolicyListRule PolicyListRuleFormValues
form rule_number = record {
  parse = λ raw. parse_policy_list_rule rule_number raw;
  to_values = policy_list_rule_to_form_values;
  blank = blank_policy_list_rule_form_values;
  scalar_fields = scalar_fields;
  flag_fields = [];
  saved = saved_values;
  IsAccepted = λ values. Unit {0};
  is_separate = refl;
  blank-parse = blank_form rule_number;
  saved-parse = parse-saved_values rule_number;
}

-- The form is the generic diff over its node.
policy_list_rule_form_to_ops-diff :
    (kind : PolicyListKind) (list_name rule_number : String) (before : Option PolicyListRule)
    (values : PolicyListRuleFormValues)
    → policy_list_rule_form_to_ops kind list_name rule_number before values
      ≡ diff_to_ops
          (policy_list_rule_path kind list_name rule_number [])
          scalar_fields
          []
          (opened_values (form rule_number) before)
          values
unfolding policy_list_rule_form_to_ops diff_to_ops flag_ops policy_list_rule_before policy_list_path
    policy_list_rule_path
policy_list_rule_form_to_ops-diff kind list_name rule_number none values =
    sym (append-nil (scalar_ops _ scalar_fields blank_policy_list_rule_form_values values))
policy_list_rule_form_to_ops-diff kind list_name rule_number (some before) values =
    sym (append-nil (scalar_ops _ scalar_fields (policy_list_rule_to_form_values before) values))

-- After its commands have run, the rule parsed from the list shows in each
-- field the text that was typed, trimmed where it was edited. The form was opened on the node that
-- was there, or on none, and each field's node holds one value.
pub policy_list_rule_form_to_ops-round_trip :
    (r : Router) (s : r.State) (kind : PolicyListKind) (list_name rule_number : String)
    (before : Option PolicyListRule) (values : PolicyListRuleFormValues)
    → IsOpened
        (form rule_number)
        (get_path (r.tree s) (policy_list_rule_path kind list_name rule_number []))
        before
    → HasSingleFields (form rule_number) r (policy_list_rule_path kind list_name rule_number [])
    → policy_list_rule_to_form_values (
        parse_policy_list_rule rule_number (
          get_path
            (r.tree
              (run_all r s (policy_list_rule_form_to_ops kind list_name rule_number before values)))
            (policy_list_rule_path kind list_name rule_number [])))
      ≡ saved_values (opened_values (form rule_number) before) values
policy_list_rule_form_to_ops-round_trip r s kind list_name rule_number before values opened single =
    form-round_trip (form rule_number) r s (policy_list_rule_path kind list_name rule_number [])
      before values _ (policy_list_rule_form_to_ops-diff kind list_name rule_number before values)
      opened single tt
