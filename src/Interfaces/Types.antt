-- ===== src/Interfaces/Types.antt =====
-- lib/interfaceTypes.ts. An optional field is an `Option`; a choice is its text.
use vyos_client.Base.{ℕ, String, Bool, Option, List, [], ◌∷◌}

pub record InterfaceVlan : Type 0 where
  pub vlan_id : String
  pub description : Option String
  pub disabled : Bool
  pub mac : Option String
  pub mtu : Option ℕ
  pub addresses : List String
  pub vrf : Option String

pub record EthernetInterface : Type 0 where
  pub name : String
  pub description : Option String
  pub disabled : Bool
  pub mac : Option String
  pub mtu : Option ℕ
  pub addresses : List String
  pub vrf : Option String
  pub vlans : List InterfaceVlan

pub record BondInterface : Type 0 where
  pub name : String
  pub description : Option String
  pub disabled : Bool
  pub mac : Option String
  pub mtu : Option ℕ
  pub addresses : List String
  pub vrf : Option String
  pub mode : String
  pub hash_policy : Option String
  pub primary : Option String
  pub lacp_rate : Option String
  pub min_links : Option ℕ
  pub members : List String
  pub vlans : List InterfaceVlan

pub record BridgeMember : Type 0 where
  pub name : String
  pub priority : Option ℕ
  pub cost : Option ℕ

pub record BridgeInterface : Type 0 where
  pub name : String
  pub description : Option String
  pub disabled : Bool
  pub mac : Option String
  pub mtu : Option ℕ
  pub addresses : List String
  pub vrf : Option String
  pub stp : Bool
  pub vlan_aware : Bool
  pub vlan_protocol : Option String
  pub members : List BridgeMember
  pub vlans : List InterfaceVlan

pub record Vrf : Type 0 where
  pub name : String
  pub table : String

abbrev pub bond_modes : List String
bond_modes =
    "802.3ad" ∷ "active-backup" ∷ "broadcast" ∷ "round-robin" ∷ "transmit-load-balance"
    ∷ "adaptive-load-balance" ∷ "xor-hash" ∷ []

abbrev pub bond_hash_policies : List String
bond_hash_policies = "layer2" ∷ "layer2+3" ∷ "layer3+4" ∷ []

abbrev pub bond_lacp_rates : List String
bond_lacp_rates = "slow" ∷ "fast" ∷ []

abbrev pub bridge_vlan_protocols : List String
bridge_vlan_protocols = "802.1q" ∷ "802.1ad" ∷ []
