-- ===== src/Policy/RouteMapForm/MapRoundTrip.antt =====
-- Saving the description: lib/routeMapForm.ts.
use vyos_client.Base.{
  String, Option, none, some, List, [], ◌∷◌, ◌≡◌, refl, sym, ap, ◌∙◌, append-nil,
}
use vyos_client.Json.{Value, undefined, as_string, child}
use vyos_client.Json.Paths.{get_path}
use vyos_client.Config.Router.{Router}
use vyos_client.Config.Router.Runs.{run_all}
use vyos_client.Config.Diff.{ScalarField, diff_to_ops, scalar_ops, flag_ops, scalar_field_ops}
use vyos_client.Config.Diff.Effect.{Saved}
use vyos_client.Config.Diff.Form.{Form, opened_values, IsOpened, HasSingleFields, form-round_trip}
use vyos_client.Config.Diff.Shown.{saved_text, shown-edited}
use vyos_client.Firewall.Parse.{record_entries}
use vyos_client.Policy.Types.{RouteMap}
use vyos_client.Policy.Parse.{parse_route_map}
use vyos_client.Policy.Paths.{route_map_path}
use vyos_client.Policy.RouteMapForm.{
  RouteMapFormValues, blank_route_map_form_values, route_map_to_form_values, route_map_form_to_ops,
  route_map_before,
}

-- What the form shows when it is opened again.
abbrev pub saved_values : RouteMapFormValues → RouteMapFormValues → RouteMapFormValues
saved_values before values = record {
  description = saved_text before.description values.description;
}

-- The one step, as a table of one row.
abbrev pub description_field : List (ScalarField RouteMapFormValues)
description_field = record { get = λ v. v.description; segments = "description" ∷ [] } ∷ []

pub parse-saved_values :
    (name : String) (raw raw' : Value) (before values : RouteMapFormValues)
    → before ≡ route_map_to_form_values (parse_route_map name raw)
    → Unit {0}
    → Saved description_field [] before values raw raw'
    → route_map_to_form_values (parse_route_map name raw') ≡ saved_values before values
unfolding parse_route_map route_map_to_form_values
parse-saved_values name raw raw' before values h k ((e_description, _), _) = λ i. record {
  description = shown-edited _ _ _ (values.description) (ap (λ f. f.description) h) e_description i;
}

pub blank_form :
    (name : String)
    → blank_route_map_form_values ≡ route_map_to_form_values (parse_route_map name undefined)
unfolding parse_route_map route_map_to_form_values child as_string record_entries
blank_form name = refl

abbrev pub form : (name : String) → Form RouteMap RouteMapFormValues
form name = record {
  parse = λ raw. parse_route_map name raw;
  to_values = route_map_to_form_values;
  blank = blank_route_map_form_values;
  scalar_fields = description_field;
  flag_fields = [];
  saved = saved_values;
  IsAccepted = λ values. Unit {0};
  is_separate = refl;
  blank-parse = blank_form name;
  saved-parse = parse-saved_values name;
}

-- The form is the generic diff over its node.
route_map_form_to_ops-diff :
    (name : String) (before : Option RouteMap) (values : RouteMapFormValues)
    → route_map_form_to_ops name before values
      ≡ diff_to_ops
          (route_map_path name [])
          description_field
          []
          (opened_values (form name) before)
          values
unfolding route_map_form_to_ops diff_to_ops scalar_ops flag_ops route_map_before route_map_path
route_map_form_to_ops-diff name none values =
    sym (
      append-nil (
        scalar_field_ops (route_map_path name ("description" ∷ []))
          blank_route_map_form_values.description values.description))
    ∙ sym (append-nil _)
route_map_form_to_ops-diff name (some before) values =
    sym (
      append-nil (
        scalar_field_ops (route_map_path name ("description" ∷ []))
          (route_map_to_form_values before).description values.description))
    ∙ sym (append-nil _)

-- After its commands have run, the route map that is parsed shows in each
-- field the text that was typed, trimmed where it was edited. The form was opened on the node that
-- was there, or on none, and each field's node holds one value.
pub route_map_form_to_ops-round_trip :
    (r : Router) (s : r.State) (name : String) (before : Option RouteMap)
    (values : RouteMapFormValues)
    → IsOpened (form name) (get_path (r.tree s) (route_map_path name [])) before
    → HasSingleFields (form name) r (route_map_path name [])
    → route_map_to_form_values (
        parse_route_map name (
          get_path
            (r.tree (run_all r s (route_map_form_to_ops name before values)))
            (route_map_path name [])))
      ≡ saved_values (opened_values (form name) before) values
route_map_form_to_ops-round_trip r s name before values opened single =
    form-round_trip (form name) r s (route_map_path name []) before values _
      (route_map_form_to_ops-diff name before values) opened single tt
