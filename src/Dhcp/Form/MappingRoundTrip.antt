-- ===== src/Dhcp/Form/MappingRoundTrip.antt =====
-- Saving the form of a static mapping.
use vyos_client.Base.{String, Option, none, some, [], ◌≡◌, refl, ap}
use vyos_client.Json.{Value, undefined, as_string, child}
use vyos_client.Json.Paths.{get_path}
use vyos_client.Config.Router.{Router}
use vyos_client.Config.Router.Runs.{run_all}
use vyos_client.Config.Diff.{diff_to_ops}
use vyos_client.Config.Diff.Effect.{Saved}
use vyos_client.Config.Diff.Form.{Form, opened_values, IsOpened, HasSingleFields, form-round_trip}
use vyos_client.Config.Diff.Shown.{saved_text, shown-edited}
use vyos_client.Dhcp.Types.{DhcpStaticMapping}
use vyos_client.Dhcp.Parse.{parse_static_mapping, static_mapping_path}
use vyos_client.Dhcp.Form.{
  StaticMappingFormValues, blank_static_mapping_form_values, static_mapping_to_form_values,
  static_mapping_scalar_fields, static_mapping_before, static_mapping_form_to_ops,
}

-- What the form shows when it is opened again.
abbrev pub saved_values :
    StaticMappingFormValues → StaticMappingFormValues → StaticMappingFormValues
saved_values before values = record {
  mac = saved_text before.mac values.mac;
  duid = saved_text before.duid values.duid;
  ip_address = saved_text before.ip_address values.ip_address;
}

pub parse-saved_values :
    (mapping_name : String) (raw raw' : Value) (before values : StaticMappingFormValues)
    → before ≡ static_mapping_to_form_values (parse_static_mapping mapping_name raw)
    → Unit {0}
    → Saved static_mapping_scalar_fields [] before values raw raw'
    → static_mapping_to_form_values (parse_static_mapping mapping_name raw')
      ≡ saved_values before values
unfolding parse_static_mapping static_mapping_to_form_values
parse-saved_values mapping_name raw raw' before values h k
      ((e_mac, (e_duid, (e_ip_address, _))), _) =
    λ i. record {
      mac = shown-edited _ _ _ (values.mac) (ap (λ f. f.mac) h) e_mac i;
      duid = shown-edited _ _ _ (values.duid) (ap (λ f. f.duid) h) e_duid i;
      ip_address = shown-edited _ _ _ (values.ip_address) (ap (λ f. f.ip_address) h) e_ip_address i;
    }

pub blank_form :
    (mapping_name : String)
    → blank_static_mapping_form_values
      ≡ static_mapping_to_form_values (parse_static_mapping mapping_name undefined)
unfolding parse_static_mapping static_mapping_to_form_values child as_string
blank_form mapping_name = refl

abbrev pub form : (mapping_name : String) → Form DhcpStaticMapping StaticMappingFormValues
form mapping_name = record {
  parse = λ raw. parse_static_mapping mapping_name raw;
  to_values = static_mapping_to_form_values;
  blank = blank_static_mapping_form_values;
  scalar_fields = static_mapping_scalar_fields;
  flag_fields = [];
  saved = saved_values;
  IsAccepted = λ values. Unit {0};
  is_separate = refl;
  blank-parse = blank_form mapping_name;
  saved-parse = parse-saved_values mapping_name;
}

-- The form is the generic diff over its node.
static_mapping_form_to_ops-diff :
    (network_name cidr mapping_name : String) (before : Option DhcpStaticMapping)
    (values : StaticMappingFormValues)
    → static_mapping_form_to_ops network_name cidr mapping_name before values
      ≡ diff_to_ops
          (static_mapping_path network_name cidr mapping_name [])
          static_mapping_scalar_fields
          []
          (opened_values (form mapping_name) before)
          values
unfolding static_mapping_form_to_ops static_mapping_before
static_mapping_form_to_ops-diff network_name cidr mapping_name none values = refl
static_mapping_form_to_ops-diff network_name cidr mapping_name (some before) values = refl

-- After its commands have run, the static mapping that is parsed shows in each
-- field the text that was typed, trimmed where it was edited. The form was opened on the node that
-- was there, or on none, and each field's node holds one value.
pub static_mapping_form_to_ops-round_trip :
    (r : Router) (s : r.State) (network_name cidr mapping_name : String)
    (before : Option DhcpStaticMapping) (values : StaticMappingFormValues)
    → IsOpened
        (form mapping_name)
        (get_path (r.tree s) (static_mapping_path network_name cidr mapping_name []))
        before
    → HasSingleFields (form mapping_name) r (static_mapping_path network_name cidr mapping_name [])
    → static_mapping_to_form_values (
        parse_static_mapping mapping_name (
          get_path
            (r.tree (
              run_all r s
                (static_mapping_form_to_ops network_name cidr mapping_name before values)))
            (static_mapping_path network_name cidr mapping_name [])))
      ≡ saved_values (opened_values (form mapping_name) before) values
static_mapping_form_to_ops-round_trip r s network_name cidr mapping_name before values opened
      single =
    form-round_trip (form mapping_name) r s (static_mapping_path network_name cidr mapping_name [])
      before values _ (static_mapping_form_to_ops-diff network_name cidr mapping_name before values)
      opened single tt
