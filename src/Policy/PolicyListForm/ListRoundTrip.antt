-- ===== src/Policy/PolicyListForm/ListRoundTrip.antt =====
-- Saving the description: lib/policyListForm.ts.
use vyos_client.Base.{
  String, Option, none, some, List, [], ◌∷◌, ◌≡◌, refl, sym, ap, ◌∙◌, append-nil,
}
use vyos_client.Json.{Value, undefined, as_string, child}
use vyos_client.Json.Paths.{get_path}
use vyos_client.Config.Router.{Router}
use vyos_client.Config.Router.Runs.{run_all}
use vyos_client.Config.Diff.{ScalarField, diff_to_ops, scalar_ops, flag_ops, scalar_field_ops}
use vyos_client.Config.Diff.Effect.{Saved}
use vyos_client.Config.Diff.Form.{Form, opened_values, IsOpened, HasSingleFields, form-round_trip}
use vyos_client.Config.Diff.Shown.{saved_text, shown-edited}
use vyos_client.Firewall.Parse.{record_entries}
use vyos_client.Policy.Types.{PolicyListKind, PolicyList}
use vyos_client.Policy.Parse.{parse_policy_list}
use vyos_client.Policy.Paths.{policy_list_path}
use vyos_client.Policy.PolicyListForm.{
  PolicyListFormValues, blank_policy_list_form_values, policy_list_to_form_values,
  policy_list_form_to_ops, policy_list_before,
}

-- What the form shows when it is opened again.
abbrev pub saved_values : PolicyListFormValues → PolicyListFormValues → PolicyListFormValues
saved_values before values = record {
  description = saved_text before.description values.description;
}

-- The one step, as a table of one row.
abbrev pub description_field : List (ScalarField PolicyListFormValues)
description_field = record { get = λ v. v.description; segments = "description" ∷ [] } ∷ []

pub parse-saved_values :
    (kind : PolicyListKind) (name : String) (raw raw' : Value)
    (before values : PolicyListFormValues)
    → before ≡ policy_list_to_form_values (parse_policy_list kind name raw)
    → Unit {0}
    → Saved description_field [] before values raw raw'
    → policy_list_to_form_values (parse_policy_list kind name raw') ≡ saved_values before values
unfolding parse_policy_list policy_list_to_form_values
parse-saved_values kind name raw raw' before values h k ((e_description, _), _) = λ i. record {
  description = shown-edited _ _ _ (values.description) (ap (λ f. f.description) h) e_description i;
}

pub blank_form :
    (kind : PolicyListKind) (name : String)
    → blank_policy_list_form_values
      ≡ policy_list_to_form_values (parse_policy_list kind name undefined)
unfolding parse_policy_list policy_list_to_form_values child as_string record_entries
blank_form kind name = refl

abbrev pub form : (kind : PolicyListKind) (name : String) → Form PolicyList PolicyListFormValues
form kind name = record {
  parse = λ raw. parse_policy_list kind name raw;
  to_values = policy_list_to_form_values;
  blank = blank_policy_list_form_values;
  scalar_fields = description_field;
  flag_fields = [];
  saved = saved_values;
  IsAccepted = λ values. Unit {0};
  is_separate = refl;
  blank-parse = blank_form kind name;
  saved-parse = parse-saved_values kind name;
}

-- The form is the generic diff over its node.
policy_list_form_to_ops-diff :
    (kind : PolicyListKind) (name : String) (before : Option PolicyList)
    (values : PolicyListFormValues)
    → policy_list_form_to_ops kind name before values
      ≡ diff_to_ops
          (policy_list_path kind name [])
          description_field
          []
          (opened_values (form kind name) before)
          values
unfolding policy_list_form_to_ops diff_to_ops scalar_ops flag_ops policy_list_before
    policy_list_path
policy_list_form_to_ops-diff kind name none values =
    sym (
      append-nil (
        scalar_field_ops (policy_list_path kind name ("description" ∷ []))
          blank_policy_list_form_values.description values.description))
    ∙ sym (append-nil _)
policy_list_form_to_ops-diff kind name (some before) values =
    sym (
      append-nil (
        scalar_field_ops (policy_list_path kind name ("description" ∷ []))
          (policy_list_to_form_values before).description values.description))
    ∙ sym (append-nil _)

-- After its commands have run, the list that is parsed shows in each
-- field the text that was typed, trimmed where it was edited. The form was opened on the node that
-- was there, or on none, and each field's node holds one value.
pub policy_list_form_to_ops-round_trip :
    (r : Router) (s : r.State) (kind : PolicyListKind) (name : String) (before : Option PolicyList)
    (values : PolicyListFormValues)
    → IsOpened (form kind name) (get_path (r.tree s) (policy_list_path kind name [])) before
    → HasSingleFields (form kind name) r (policy_list_path kind name [])
    → policy_list_to_form_values (
        parse_policy_list kind name (
          get_path
            (r.tree (run_all r s (policy_list_form_to_ops kind name before values)))
            (policy_list_path kind name [])))
      ≡ saved_values (opened_values (form kind name) before) values
policy_list_form_to_ops-round_trip r s kind name before values opened single =
    form-round_trip (form kind name) r s (policy_list_path kind name []) before values _
      (policy_list_form_to_ops-diff kind name before values) opened single tt
