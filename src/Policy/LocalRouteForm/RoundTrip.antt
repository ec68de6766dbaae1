-- ===== src/Policy/LocalRouteForm/RoundTrip.antt =====
-- Saving the form: lib/localRouteForm.ts.
use vyos_client.Base.{String, Option, none, some, [], ◌≡◌, refl, sym, ap, append-nil}
use vyos_client.Json.{Value, undefined, as_string, as_string_array, child}
use vyos_client.Json.Paths.{get_path}
use vyos_client.Config.Router.{Router}
use vyos_client.Config.Router.Runs.{run_all}
use vyos_client.Config.Diff.{diff_to_ops, scalar_ops, flag_ops}
use vyos_client.Config.Diff.Effect.{Saved}
use vyos_client.Config.Diff.Form.{Form, opened_values, IsOpened, HasSingleFields, form-round_trip}
use vyos_client.Config.Diff.Shown.{saved_text, shown-edited}
use vyos_client.Policy.Types.{LocalRouteFamily, LocalRouteRule}
use vyos_client.Policy.Parse.{parse_local_route_rule}
use vyos_client.Policy.Paths.{local_route_path, local_route_rule_path}
use vyos_client.Policy.LocalRouteForm.{
  LocalRouteFormValues, blank_local_route_form_values, local_route_to_form_values, scalar_fields,
  local_route_form_to_ops, local_route_before,
}

-- What the form shows when it is opened again.
abbrev pub saved_values : LocalRouteFormValues → LocalRouteFormValues → LocalRouteFormValues
saved_values before values = record {
  protocol = saved_text before.protocol values.protocol;
  fwmark = saved_text before.fwmark values.fwmark;
  source_port = saved_text before.source_port values.source_port;
  destination_port = saved_text before.destination_port values.destination_port;
  inbound_interface = saved_text before.inbound_interface values.inbound_interface;
  table = saved_text before.table values.table;
  vrf = saved_text before.vrf values.vrf;
}

pub parse-saved_values :
    (family : LocalRouteFamily) (rule_number : String) (raw raw' : Value)
    (before values : LocalRouteFormValues)
    → before ≡ local_route_to_form_values (parse_local_route_rule family rule_number raw)
    → Unit {0}
    → Saved scalar_fields [] before values raw raw'
    → local_route_to_form_values (parse_local_route_rule family rule_number raw')
      ≡ saved_values before values
unfolding parse_local_route_rule local_route_to_form_values
parse-saved_values family rule_number raw raw' before values h k
      (
        (
          e_protocol,
          (
            e_fwmark,
            (e_source_port, (e_destination_port, (e_inbound_interface, (e_table, (e_vrf, _))))),
          ),
        ),
        _,
      ) =
    λ i. record {
      protocol = shown-edited _ _ _ (values.protocol) (ap (λ f. f.protocol) h) e_protocol i;
      fwmark = shown-edited _ _ _ (values.fwmark) (ap (λ f. f.fwmark) h) e_fwmark i;
      source_port =
          shown-edited _ _ _ (values.source_port) (ap (λ f. f.source_port) h) e_source_port i;
      destination_port =
          shown-edited _ _ _ (values.destination_port) (ap (λ f. f.destination_port) h)
            e_destination_port i;
      inbound_interface =
          shown-edited _ _ _ (values.inbound_interface) (ap (λ f. f.inbound_interface) h)
            e_inbound_interface i;
      table = shown-edited _ _ _ (values.table) (ap (λ f. f.table) h) e_table i;
      vrf = shown-edited _ _ _ (values.vrf) (ap (λ f. f.vrf) h) e_vrf i;
    }

pub blank_form :
    (family : LocalRouteFamily) (rule_number : String)
    → blank_local_route_form_values
      ≡ local_route_to_form_values (parse_local_route_rule family rule_number undefined)
unfolding parse_local_route_rule local_route_to_form_values child as_string as_string_array
blank_form family rule_number = refl

abbrev pub form :
    (family : LocalRouteFamily) (rule_number : String) → Form LocalRouteRule LocalRouteFormValues
form family rule_number = record {
  parse = λ raw. parse_local_route_rule family rule_number raw;
  to_values = local_route_to_form_values;
  blank = blank_local_route_form_values;
  scalar_fields = scalar_fields;
  flag_fields = [];
  saved = saved_values;
  IsAccepted = λ values. Unit {0};
  is_separate = refl;
  blank-parse = blank_form family rule_number;
  saved-parse = parse-saved_values family rule_number;
}

-- The form is the generic diff over its node.
local_route_form_to_ops-diff :
    (family : LocalRouteFamily) (rule_number : String) (before : Option LocalRouteRule)
    (values : LocalRouteFormValues)
    → local_route_form_to_ops family rule_number before values
      ≡ diff_to_ops
          (local_route_rule_path family rule_number [])
          scalar_fields
          []
          (opened_values (form family rule_number) before)
          values
unfolding local_route_form_to_ops diff_to_ops flag_ops local_route_before local_route_path
    local_route_rule_path
local_route_form_to_ops-diff family rule_number none values =
    sym (append-nil (scalar_ops _ scalar_fields blank_local_route_form_values values))
local_route_form_to_ops-diff family rule_number (some before) values =
    sym (append-nil (scalar_ops _ scalar_fields (local_route_to_form_values before) values))

-- After its commands have run, the local route that is parsed shows in each
-- field the text that was typed, trimmed where it was edited. The form was opened on the node that
-- was there, or on none, and each field's node holds one value.
pub local_route_form_to_ops-round_trip :
    (r : Router) (s : r.State) (family : LocalRouteFamily) (rule_number : String)
    (before : Option LocalRouteRule) (values : LocalRouteFormValues)
    → IsOpened
        (form family rule_number)
        (get_path (r.tree s) (local_route_rule_path family rule_number []))
        before
    → HasSingleFields (form family rule_number) r (local_route_rule_path family rule_number [])
    → local_route_to_form_values (
        parse_local_route_rule family rule_number (
          get_path
            (r.tree (run_all r s (local_route_form_to_ops family rule_number before values)))
            (local_route_rule_path family rule_number [])))
      ≡ saved_values (opened_values (form family rule_number) before) values
local_route_form_to_ops-round_trip r s family rule_number before values opened single =
    form-round_trip (form family rule_number) r s (local_route_rule_path family rule_number [])
      before values _ (local_route_form_to_ops-diff family rule_number before values) opened single
      tt
