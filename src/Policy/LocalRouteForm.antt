-- ===== src/Policy/LocalRouteForm.antt =====
-- lib/localRouteForm.ts: the form of a local route's rule.
pub mod RoundTrip
use vyos_client.Base.{String, Bool, true, false, Option, none, some, List, [], ◌∷◌, ◌++◌, or_else}
use vyos_client.Config.Op.{ConfigOp, delete_node}
use vyos_client.Config.Diff.{ScalarField, FlagField, scalar_ops, flag_ops, scalar_field_ops}
use vyos_client.Policy.Types.{LocalRouteFamily, LocalRouteRule}
use vyos_client.Policy.Paths.{local_route_rule_path}

pub record LocalRouteFormValues : Type 0 where
  pub protocol : String
  pub fwmark : String
  pub source_port : String
  pub destination_port : String
  pub inbound_interface : String
  pub table : String
  pub vrf : String

abbrev pub blank_local_route_form_values : LocalRouteFormValues
blank_local_route_form_values = record {
  protocol = "";
  fwmark = "";
  source_port = "";
  destination_port = "";
  inbound_interface = "";
  table = "";
  vrf = "";
}

unfoldable pub local_route_to_form_values : LocalRouteRule → LocalRouteFormValues
local_route_to_form_values rule = record {
  protocol = or_else rule.protocol "";
  fwmark = or_else rule.fwmark "";
  source_port = or_else rule.source_port "";
  destination_port = or_else rule.destination_port "";
  inbound_interface = or_else rule.inbound_interface "";
  table = or_else rule.table "";
  vrf = or_else rule.vrf "";
}

abbrev pub scalar_fields : List (ScalarField LocalRouteFormValues)
scalar_fields =
    record { get = λ v. v.protocol; segments = "protocol" ∷ [] }
    ∷ record { get = λ v. v.fwmark; segments = "fwmark" ∷ [] }
    ∷ record { get = λ v. v.source_port; segments = "source" ∷ "port" ∷ [] }
    ∷ record { get = λ v. v.destination_port; segments = "destination" ∷ "port" ∷ [] }
    ∷ record { get = λ v. v.inbound_interface; segments = "inbound-interface" ∷ [] }
    ∷ record { get = λ v. v.table; segments = "set" ∷ "table" ∷ [] }
    ∷ record { get = λ v. v.vrf; segments = "set" ∷ "vrf" ∷ [] }
    ∷ []

-- The values of the form as it was opened.
unfoldable pub local_route_before : Option LocalRouteRule → LocalRouteFormValues
unfolding local_route_to_form_values
local_route_before none = blank_local_route_form_values
local_route_before (some before) = local_route_to_form_values before

unfoldable pub local_route_form_to_ops :
    LocalRouteFamily → String → Option LocalRouteRule → LocalRouteFormValues → List ConfigOp
local_route_form_to_ops family rule_number before values =
    scalar_ops (local_route_rule_path family rule_number) scalar_fields (local_route_before before)
      values

unfoldable pub delete_local_route_op : LocalRouteFamily → String → ConfigOp
unfolding local_route_rule_path
delete_local_route_op family rule_number = delete_node (local_route_rule_path family rule_number [])
