-- ===== src/Policy/PrefixListForm/ListRoundTrip.antt =====
-- Saving the description: lib/prefixListForm.ts.
use vyos_client.Base.{
  String, Option, none, some, List, [], ◌∷◌, ◌≡◌, refl, sym, ap, ◌∙◌, append-nil,
}
use vyos_client.Json.{Value, undefined, as_string, child}
use vyos_client.Json.Paths.{get_path}
use vyos_client.Config.Router.{Router}
use vyos_client.Config.Router.Runs.{run_all}
use vyos_client.Config.Diff.{ScalarField, diff_to_ops, scalar_ops, flag_ops, scalar_field_ops}
use vyos_client.Config.Diff.Effect.{Saved}
use vyos_client.Config.Diff.Form.{Form, opened_values, IsOpened, HasSingleFields, form-round_trip}
use vyos_client.Config.Diff.Shown.{saved_text, shown-edited}
use vyos_client.Firewall.Parse.{record_entries}
use vyos_client.Policy.Types.{PrefixListFamily, PrefixList}
use vyos_client.Policy.Parse.{parse_prefix_list}
use vyos_client.Policy.Paths.{prefix_list_path}
use vyos_client.Policy.PrefixListForm.{
  PrefixListFormValues, blank_prefix_list_form_values, prefix_list_to_form_values,
  prefix_list_form_to_ops, prefix_list_before,
}

-- What the form shows when it is opened again.
abbrev pub saved_values : PrefixListFormValues → PrefixListFormValues → PrefixListFormValues
saved_values before values = record {
  description = saved_text before.description values.description;
}

-- The one step, as a table of one row.
abbrev pub description_field : List (ScalarField PrefixListFormValues)
description_field = record { get = λ v. v.description; segments = "description" ∷ [] } ∷ []

pub parse-saved_values :
    (family : PrefixListFamily) (name : String) (raw raw' : Value)
    (before values : PrefixListFormValues)
    → before ≡ prefix_list_to_form_values (parse_prefix_list family name raw)
    → Unit {0}
    → Saved description_field [] before values raw raw'
    → prefix_list_to_form_values (parse_prefix_list family name raw') ≡ saved_values before values
unfolding parse_prefix_list prefix_list_to_form_values
parse-saved_values family name raw raw' before values h k ((e_description, _), _) = λ i. record {
  description = shown-edited _ _ _ (values.description) (ap (λ f. f.description) h) e_description i;
}

pub blank_form :
    (family : PrefixListFamily) (name : String)
    → blank_prefix_list_form_values
      ≡ prefix_list_to_form_values (parse_prefix_list family name undefined)
unfolding parse_prefix_list prefix_list_to_form_values child as_string record_entries
blank_form family name = refl

abbrev pub form : (family : PrefixListFamily) (name : String) → Form PrefixList PrefixListFormValues
form family name = record {
  parse = λ raw. parse_prefix_list family name raw;
  to_values = prefix_list_to_form_values;
  blank = blank_prefix_list_form_values;
  scalar_fields = description_field;
  flag_fields = [];
  saved = saved_values;
  IsAccepted = λ values. Unit {0};
  is_separate = refl;
  blank-parse = blank_form family name;
  saved-parse = parse-saved_values family name;
}

-- The form is the generic diff over its node.
prefix_list_form_to_ops-diff :
    (family : PrefixListFamily) (name : String) (before : Option PrefixList)
    (values : PrefixListFormValues)
    → prefix_list_form_to_ops family name before values
      ≡ diff_to_ops
          (prefix_list_path family name [])
          description_field
          []
          (opened_values (form family name) before)
          values
unfolding prefix_list_form_to_ops diff_to_ops scalar_ops flag_ops prefix_list_before
    prefix_list_path
prefix_list_form_to_ops-diff family name none values =
    sym (
      append-nil (
        scalar_field_ops (prefix_list_path family name ("description" ∷ []))
          blank_prefix_list_form_values.description values.description))
    ∙ sym (append-nil _)
prefix_list_form_to_ops-diff family name (some before) values =
    sym (
      append-nil (
        scalar_field_ops (prefix_list_path family name ("description" ∷ []))
          (prefix_list_to_form_values before).description values.description))
    ∙ sym (append-nil _)

-- After its commands have run, the prefix list that is parsed shows in each
-- field the text that was typed, trimmed where it was edited. The form was opened on the node that
-- was there, or on none, and each field's node holds one value.
pub prefix_list_form_to_ops-round_trip :
    (r : Router) (s : r.State) (family : PrefixListFamily) (name : String)
    (before : Option PrefixList) (values : PrefixListFormValues)
    → IsOpened (form family name) (get_path (r.tree s) (prefix_list_path family name [])) before
    → HasSingleFields (form family name) r (prefix_list_path family name [])
    → prefix_list_to_form_values (
        parse_prefix_list family name (
          get_path
            (r.tree (run_all r s (prefix_list_form_to_ops family name before values)))
            (prefix_list_path family name [])))
      ≡ saved_values (opened_values (form family name) before) values
prefix_list_form_to_ops-round_trip r s family name before values opened single =
    form-round_trip (form family name) r s (prefix_list_path family name []) before values _
      (prefix_list_form_to_ops-diff family name before values) opened single tt
