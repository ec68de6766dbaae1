-- ===== src/Nat/Types.antt =====
-- lib/natTypes.ts: NAT44 rules. An optional field is an `Option`.
use vyos_client.Base.{String, Bool, Option, List}

pub data NatRuleKind : Type 0 where
  source destination : NatRuleKind

-- The text that the union's member is.
unfoldable pub kind_text : NatRuleKind → String
kind_text source = "source"
kind_text destination = "destination"

pub record NatMatch : Type 0 where
  pub address : Option String
  pub port : Option String
  pub address_group : Option String
  pub network_group : Option String
  pub port_group : Option String

pub record NatRule : Type 0 where
  pub kind : NatRuleKind
  pub number : String
  pub description : Option String
  pub interface_name : Option String
  pub protocol : Option String
  pub source : NatMatch
  pub destination : NatMatch
  pub translation_address : Option String
  pub translation_port : Option String
  pub redirect_port : Option String
  pub disabled : Bool
  pub exclude : Bool
  pub log : Bool

pub record NatStaticRule : Type 0 where
  pub number : String
  pub description : Option String
  pub destination_address : Option String
  pub interface_name : Option String
  pub translation_address : Option String
  pub log : Bool

pub record NatConfig : Type 0 where
  pub source_rules : List NatRule
  pub destination_rules : List NatRule
  pub static_rules : List NatStaticRule
