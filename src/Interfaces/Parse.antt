-- ===== src/Interfaces/Parse.antt =====
-- lib/interfaceParse.ts: from the JSON tree of `interfaces` and `vrf` to the typed configuration, and
-- the paths of their nodes. `localeCompare` is an argument.
use vyos_client.Base.{
  ℕ, String, Bool, Option, none, some, List, ◌∷◌, ◌++◌, map, any, or_else, ◌==◌, if◌then◌else◌,
}
use vyos_client.Base.Number.{to_number}
use vyos_client.Base.Sorting.{sort_by, number_before}
use vyos_client.Json.{Value, as_string, as_array, child, is_flag_present}
use vyos_client.Firewall.Parse.{record_entries}
use vyos_client.Interfaces.Types.{
  InterfaceVlan, EthernetInterface, BondInterface, BridgeMember, BridgeInterface, Vrf, bond_modes,
  bond_hash_policies, bond_lacp_rates, bridge_vlan_protocols,
}

-- A number of the configuration is a text of digits. It is exact here, where JavaScript rounds numbers
-- above 2^53.
unfoldable pub as_number : Value → Option ℕ
unfolding to_number
as_number v = elim (as_string v) [ none ↦ none | some s ↦ to_number s ]

-- `CHOICES.includes(raw ?? '') ? raw : undefined`
unfoldable pub as_choice : List String → Option String → Option String
as_choice choices raw = if any (λ x. x == or_else raw "") choices then raw else none

unfoldable pub vlan_path : List String → String → List String → List String
vlan_path parent_path vlan_id rest = parent_path ++ "vif" ∷ vlan_id ∷ rest

unfoldable pub ethernet_path : String → List String → List String
ethernet_path name rest = "interfaces" ∷ "ethernet" ∷ name ∷ rest

unfoldable pub bond_path : String → List String → List String
bond_path name rest = "interfaces" ∷ "bonding" ∷ name ∷ rest

unfoldable pub bridge_path : String → List String → List String
bridge_path name rest = "interfaces" ∷ "bridge" ∷ name ∷ rest

unfoldable pub vrf_path : String → List String → List String
vrf_path name rest = "vrf" ∷ "name" ∷ name ∷ rest

unfoldable pub parse_vlan : String → Value → InterfaceVlan
unfolding as_number
parse_vlan vlan_id raw = record {
  vlan_id = vlan_id;
  description = as_string (child raw "description");
  disabled = is_flag_present raw "disable";
  mac = as_string (child raw "mac");
  mtu = as_number (child raw "mtu");
  addresses = as_array (child raw "address");
  vrf = as_string (child raw "vrf");
}

unfoldable pub parse_vlans : Value → List InterfaceVlan
unfolding parse_vlan record_entries number_before sort_by
parse_vlans parent_raw =
    sort_by (λ (a b : InterfaceVlan). number_before a.vlan_id b.vlan_id)
      (map (λ e. parse_vlan e.0 e.1) (record_entries (child parent_raw "vif")))

unfoldable pub parse_ethernet_interface : String → Value → EthernetInterface
unfolding as_number parse_vlans
parse_ethernet_interface name raw = record {
  name = name;
  description = as_string (child raw "description");
  disabled = is_flag_present raw "disable";
  mac = as_string (child raw "mac");
  mtu = as_number (child raw "mtu");
  addresses = as_array (child raw "address");
  vrf = as_string (child raw "vrf");
  vlans = parse_vlans raw;
}

unfoldable pub parse_bond_interface : String → Value → BondInterface
unfolding as_number as_choice parse_vlans
parse_bond_interface name raw = record {
  name = name;
  description = as_string (child raw "description");
  disabled = is_flag_present raw "disable";
  mac = as_string (child raw "mac");
  mtu = as_number (child raw "mtu");
  addresses = as_array (child raw "address");
  vrf = as_string (child raw "vrf");
  mode = or_else (as_choice bond_modes (as_string (child raw "mode"))) "802.3ad";
  hash_policy = as_choice bond_hash_policies (as_string (child raw "hash-policy"));
  primary = as_string (child raw "primary");
  lacp_rate = as_choice bond_lacp_rates (as_string (child raw "lacp-rate"));
  min_links = as_number (child raw "min-links");
  members = as_array (child (child raw "member") "interface");
  vlans = parse_vlans raw;
}

abbrev parse_bridge_member : String → Value → BridgeMember
parse_bridge_member name member_raw = record {
  name = name;
  priority = as_number (child member_raw "priority");
  cost = as_number (child member_raw "cost");
}

module _ (locale_before : String → String → Bool) where
  -- `Object.entries(root).map(…).sort((a, b) => a.name.localeCompare(b.name))`
  abbrev pub sorted_entries : {A : Type 0} → (A → String) → (String → Value → A) → Value → List A
  sorted_entries name parse root =
      sort_by (λ a b. locale_before (name a) (name b))
        (map (λ e. parse e.0 e.1) (record_entries root))

  unfoldable pub parse_bridge_members : Value → List BridgeMember
  unfolding as_number record_entries sort_by
  parse_bridge_members raw =
      sorted_entries (λ m. m.name) parse_bridge_member (child (child raw "member") "interface")

  unfoldable pub parse_ethernet_interfaces : Value → List EthernetInterface
  unfolding parse_ethernet_interface record_entries sort_by
  parse_ethernet_interfaces interfaces =
      sorted_entries (λ i. i.name) parse_ethernet_interface (child interfaces "ethernet")

  unfoldable pub parse_bond_interfaces : Value → List BondInterface
  unfolding parse_bond_interface record_entries sort_by
  parse_bond_interfaces interfaces =
      sorted_entries (λ i. i.name) parse_bond_interface (child interfaces "bonding")

  unfoldable pub parse_bridge_interface : String → Value → BridgeInterface
  unfolding as_number as_choice parse_bridge_members parse_vlans
  parse_bridge_interface name raw = record {
    name = name;
    description = as_string (child raw "description");
    disabled = is_flag_present raw "disable";
    mac = as_string (child raw "mac");
    mtu = as_number (child raw "mtu");
    addresses = as_array (child raw "address");
    vrf = as_string (child raw "vrf");
    stp = is_flag_present raw "stp";
    vlan_aware = is_flag_present raw "enable-vlan";
    vlan_protocol = as_choice bridge_vlan_protocols (as_string (child raw "protocol"));
    members = parse_bridge_members raw;
    vlans = parse_vlans raw;
  }

  unfoldable pub parse_bridge_interfaces : Value → List BridgeInterface
  unfolding parse_bridge_interface record_entries sort_by
  parse_bridge_interfaces interfaces =
      sorted_entries (λ i. i.name) parse_bridge_interface (child interfaces "bridge")

  unfoldable pub parse_vrfs : Value → List Vrf
  unfolding record_entries sort_by
  parse_vrfs vrf =
      sorted_entries (λ v. v.name)
        (λ name raw. record { name = name; table = or_else (as_string (child raw "table")) "" })
        (child vrf "name")
