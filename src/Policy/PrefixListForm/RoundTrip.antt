-- ===== src/Policy/PrefixListForm/RoundTrip.antt =====
-- Saving the form: lib/prefixListForm.ts.
use vyos_client.Base.{String, Option, none, some, [], ◌≡◌, refl, sym, ap, append-nil}
use vyos_client.Json.{Value, undefined, as_string, child}
use vyos_client.Json.Paths.{get_path}
use vyos_client.Config.Router.{Router}
use vyos_client.Config.Router.Runs.{run_all}
use vyos_client.Config.Diff.{diff_to_ops, scalar_ops, flag_ops}
use vyos_client.Config.Diff.Effect.{Saved}
use vyos_client.Config.Diff.Form.{Form, opened_values, IsOpened, HasSingleFields, form-round_trip}
use vyos_client.Config.Diff.Shown.{saved_text, shown-edited}
use vyos_client.Policy.Types.{PrefixListFamily, PrefixListRule}
use vyos_client.Policy.Parse.{parse_prefix_list_rule}
use vyos_client.Policy.Paths.{prefix_list_path, prefix_list_rule_path}
use vyos_client.Policy.PrefixListForm.{
  PrefixListRuleFormValues, blank_prefix_list_rule_form_values, prefix_list_rule_to_form_values,
  scalar_fields, prefix_list_rule_form_to_ops, prefix_list_rule_before,
}

-- What the form shows when it is opened again.
abbrev pub saved_values :
    PrefixListRuleFormValues → PrefixListRuleFormValues → PrefixListRuleFormValues
saved_values before values = record {
  action = saved_text before.action values.action;
  description = saved_text before.description values.description;
  prefix = saved_text before.prefix values.prefix;
  ge = saved_text before.ge values.ge;
  le = saved_text before.le values.le;
}

pub parse-saved_values :
    (rule_number : String) (raw raw' : Value) (before values : PrefixListRuleFormValues)
    → before ≡ prefix_list_rule_to_form_values (parse_prefix_list_rule rule_number raw)
    → Unit {0}
    → Saved scalar_fields [] before values raw raw'
    → prefix_list_rule_to_form_values (parse_prefix_list_rule rule_number raw')
      ≡ saved_values before values
unfolding parse_prefix_list_rule prefix_list_rule_to_form_values
parse-saved_values rule_number raw raw' before values h k
      ((e_action, (e_description, (e_prefix, (e_ge, (e_le, _))))), _) =
    λ i. record {
      action = shown-edited _ _ _ (values.action) (ap (λ f. f.action) h) e_action i;
      description =
          shown-edited _ _ _ (values.description) (ap (λ f. f.description) h) e_description i;
      prefix = shown-edited _ _ _ (values.prefix) (ap (λ f. f.prefix) h) e_prefix i;
      ge = shown-edited _ _ _ (values.ge) (ap (λ f. f.ge) h) e_ge i;
      le = shown-edited _ _ _ (values.le) (ap (λ f. f.le) h) e_le i;
    }

pub blank_form :
    (rule_number : String)
    → blank_prefix_list_rule_form_values
      ≡ prefix_list_rule_to_form_values (parse_prefix_list_rule rule_number undefined)
unfolding parse_prefix_list_rule prefix_list_rule_to_form_values child as_string
blank_form rule_number = refl

abbrev pub form : (rule_number : String) → Form PrefixListRule PrefixListRuleFormValues
form rule_number = record {
  parse = λ raw. parse_prefix_list_rule rule_number raw;
  to_values = prefix_list_rule_to_form_values;
  blank = blank_prefix_list_rule_form_values;
  scalar_fields = scalar_fields;
  flag_fields = [];
  saved = saved_values;
  IsAccepted = λ values. Unit {0};
  is_separate = refl;
  blank-parse = blank_form rule_number;
  saved-parse = parse-saved_values rule_number;
}

-- The form is the generic diff over its node.
prefix_list_rule_form_to_ops-diff :
    (family : PrefixListFamily) (list_name rule_number : String) (before : Option PrefixListRule)
    (values : PrefixListRuleFormValues)
    → prefix_list_rule_form_to_ops family list_name rule_number before values
      ≡ diff_to_ops
          (prefix_list_rule_path family list_name rule_number [])
          scalar_fields
          []
          (opened_values (form rule_number) before)
          values
unfolding prefix_list_rule_form_to_ops diff_to_ops flag_ops prefix_list_rule_before prefix_list_path
    prefix_list_rule_path
prefix_list_rule_form_to_ops-diff family list_name rule_number none values =
    sym (append-nil (scalar_ops _ scalar_fields blank_prefix_list_rule_form_values values))
prefix_list_rule_form_to_ops-diff family list_name rule_number (some before) values =
    sym (append-nil (scalar_ops _ scalar_fields (prefix_list_rule_to_form_values before) values))

-- After its commands have run, the rule parsed from the prefix list shows in each
-- field the text that was typed, trimmed where it was edited. The form was opened on the node that
-- was there, or on none, and each field's node holds one value.
pub prefix_list_rule_form_to_ops-round_trip :
    (r : Router) (s : r.State) (family : PrefixListFamily) (list_name rule_number : String)
    (before : Option PrefixListRule) (values : PrefixListRuleFormValues)
    → IsOpened
        (form rule_number)
        (get_path (r.tree s) (prefix_list_rule_path family list_name rule_number []))
        before
    → HasSingleFields (form rule_number) r (prefix_list_rule_path family list_name rule_number [])
    → prefix_list_rule_to_form_values (
        parse_prefix_list_rule rule_number (
          get_path
            (r.tree (
              run_all r s
                (prefix_list_rule_form_to_ops family list_name rule_number before values)))
            (prefix_list_rule_path family list_name rule_number [])))
      ≡ saved_values (opened_values (form rule_number) before) values
prefix_list_rule_form_to_ops-round_trip r s family list_name rule_number before values opened
      single =
    form-round_trip (form rule_number) r s (prefix_list_rule_path family list_name rule_number [])
      before values _ (prefix_list_rule_form_to_ops-diff family list_name rule_number before values)
      opened single tt
