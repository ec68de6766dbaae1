-- ===== src/Interfaces/Form.antt =====
-- lib/interfaceConfigForm.ts: the forms of an ethernet interface, a VLAN, a bond and a bridge. Its
-- `diffToOps` is the generic diff of Config.Diff.
pub mod Choices
pub mod BondRoundTrip
use vyos_client.Base.{ℕ, String, Bool, false, Option, none, some, List, [], ◌∷◌, ◌++◌, or_else}
use vyos_client.Base.Number.{show}
use vyos_client.Config.Op.{ConfigOp}
use vyos_client.Config.Diff.{ScalarField, FlagField, diff_to_ops}
use vyos_client.Interfaces.Types.{EthernetInterface, InterfaceVlan, BondInterface, BridgeInterface}
use vyos_client.Interfaces.Parse.{ethernet_path, vlan_path, bond_path, bridge_path}

pub record CommonInterfaceFormValues : Type 0 where
  pub description : String
  pub disabled : Bool
  pub mac : String
  pub mtu : String
  pub vrf : String

abbrev pub blank_common_form_values : CommonInterfaceFormValues
blank_common_form_values = record {
  description = "";
  disabled = false;
  mac = "";
  mtu = "";
  vrf = "";
}

-- `n !== undefined ? String(n) : ''`
unfoldable pub number_text : Option ℕ → String
unfolding show
number_text none = ""
number_text (some n) = show n

-- The fields that `commonToFormValues` reads of an interface.
unfoldable pub common_to_form_values :
    Option String → Bool → Option String → Option ℕ → Option String → CommonInterfaceFormValues
unfolding number_text
common_to_form_values description disabled mac mtu vrf = record {
  description = or_else description "";
  disabled = disabled;
  mac = or_else mac "";
  mtu = number_text mtu;
  vrf = or_else vrf "";
}

-- `{ ...V }` of the common fields: a form of more fields holds them in one record.
abbrev pub common_scalar_fields :
    {V : Type 0} → (V → CommonInterfaceFormValues) → List (ScalarField V)
common_scalar_fields common =
    record { get = λ v. (common v).description; segments = "description" ∷ [] }
    ∷ record { get = λ v. (common v).mac; segments = "mac" ∷ [] }
    ∷ record { get = λ v. (common v).mtu; segments = "mtu" ∷ [] }
    ∷ record { get = λ v. (common v).vrf; segments = "vrf" ∷ [] }
    ∷ []

abbrev pub common_flag_fields : {V : Type 0} → (V → CommonInterfaceFormValues) → List (FlagField V)
common_flag_fields common =
    record { get = λ v. (common v).disabled; segments = "disable" ∷ [] } ∷ []

unfoldable pub ethernet_to_form_values : EthernetInterface → CommonInterfaceFormValues
unfolding common_to_form_values
ethernet_to_form_values iface =
    common_to_form_values iface.description iface.disabled iface.mac iface.mtu iface.vrf

-- `before ? toFormValues(before) : blankFormValues()`
abbrev pub before_values : {A V : Type 0} → V → (A → V) → Option A → V
before_values blank to_values none = blank
before_values blank to_values (some before) = to_values before

unfoldable pub ethernet_form_to_ops :
    String → Option EthernetInterface → CommonInterfaceFormValues → List ConfigOp
unfolding ethernet_path ethernet_to_form_values diff_to_ops
ethernet_form_to_ops name before values =
    diff_to_ops (ethernet_path name []) (common_scalar_fields (λ v. v))
      (common_flag_fields (λ v. v))
      (before_values blank_common_form_values ethernet_to_form_values before) values

unfoldable pub vlan_to_form_values : InterfaceVlan → CommonInterfaceFormValues
unfolding common_to_form_values
vlan_to_form_values vlan =
    common_to_form_values vlan.description vlan.disabled vlan.mac vlan.mtu vlan.vrf

unfoldable pub vlan_form_to_ops :
    List String → String → Option InterfaceVlan → CommonInterfaceFormValues → List ConfigOp
unfolding vlan_path vlan_to_form_values diff_to_ops
vlan_form_to_ops parent_path vlan_id before values =
    diff_to_ops (vlan_path parent_path vlan_id []) (common_scalar_fields (λ v. v))
      (common_flag_fields (λ v. v))
      (before_values blank_common_form_values vlan_to_form_values before) values

pub record BondFormValues : Type 0 where
  pub common : CommonInterfaceFormValues
  pub mode : String
  pub hash_policy : String
  pub primary : String
  pub lacp_rate : String
  pub min_links : String

abbrev pub blank_bond_form_values : BondFormValues
blank_bond_form_values = record {
  common = blank_common_form_values;
  mode = "802.3ad";
  hash_policy = "";
  primary = "";
  lacp_rate = "";
  min_links = "";
}

unfoldable pub bond_to_form_values : BondInterface → BondFormValues
unfolding common_to_form_values number_text
bond_to_form_values bond = record {
  common = common_to_form_values bond.description bond.disabled bond.mac bond.mtu bond.vrf;
  mode = bond.mode;
  hash_policy = or_else bond.hash_policy "";
  primary = or_else bond.primary "";
  lacp_rate = or_else bond.lacp_rate "";
  min_links = number_text bond.min_links;
}

abbrev pub bond_scalar_fields : List (ScalarField BondFormValues)
bond_scalar_fields =
    common_scalar_fields (λ v. v.common)
    ++ record { get = λ v. v.mode; segments = "mode" ∷ [] }
      ∷ record { get = λ v. v.hash_policy; segments = "hash-policy" ∷ [] }
      ∷ record { get = λ v. v.primary; segments = "primary" ∷ [] }
      ∷ record { get = λ v. v.lacp_rate; segments = "lacp-rate" ∷ [] }
      ∷ record { get = λ v. v.min_links; segments = "min-links" ∷ [] }
      ∷ []

unfoldable pub bond_form_to_ops : String → Option BondInterface → BondFormValues → List ConfigOp
unfolding bond_path bond_to_form_values diff_to_ops
bond_form_to_ops name before values =
    diff_to_ops (bond_path name []) bond_scalar_fields (common_flag_fields (λ v. v.common))
      (before_values blank_bond_form_values bond_to_form_values before) values

pub record BridgeFormValues : Type 0 where
  pub common : CommonInterfaceFormValues
  pub stp : Bool
  pub vlan_aware : Bool
  pub vlan_protocol : String

abbrev pub blank_bridge_form_values : BridgeFormValues
blank_bridge_form_values = record {
  common = blank_common_form_values;
  stp = false;
  vlan_aware = false;
  vlan_protocol = "";
}

unfoldable pub bridge_to_form_values : BridgeInterface → BridgeFormValues
unfolding common_to_form_values
bridge_to_form_values bridge = record {
  common =
      common_to_form_values bridge.description bridge.disabled bridge.mac bridge.mtu bridge.vrf;
  stp = bridge.stp;
  vlan_aware = bridge.vlan_aware;
  vlan_protocol = or_else bridge.vlan_protocol "";
}

abbrev pub bridge_scalar_fields : List (ScalarField BridgeFormValues)
bridge_scalar_fields =
    common_scalar_fields (λ v. v.common)
    ++ record { get = λ v. v.vlan_protocol; segments = "protocol" ∷ [] } ∷ []

abbrev pub bridge_flag_fields : List (FlagField BridgeFormValues)
bridge_flag_fields =
    common_flag_fields (λ v. v.common)
    ++ record { get = λ v. v.stp; segments = "stp" ∷ [] }
      ∷ record { get = λ v. v.vlan_aware; segments = "enable-vlan" ∷ [] }
      ∷ []

unfoldable pub bridge_form_to_ops :
    String → Option BridgeInterface → BridgeFormValues → List ConfigOp
unfolding bridge_path bridge_to_form_values diff_to_ops
bridge_form_to_ops name before values =
    diff_to_ops (bridge_path name []) bridge_scalar_fields bridge_flag_fields
      (before_values blank_bridge_form_values bridge_to_form_values before) values
