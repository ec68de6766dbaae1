-- ===== src/Firewall/Types.antt =====
-- lib/firewallTypes.ts and the ruleset reference of lib/firewallParse.ts. An optional field is an
-- `Option`.
use vyos_client.Base.{String, Bool, Option, List, [], ◌∷◌}
use vyos_client.Json.{Value}

pub data FirewallFamily : Type 0 where
  ipv4 ipv6 : FirewallFamily

unfoldable pub family_text : FirewallFamily → String
family_text ipv4 = "ipv4"
family_text ipv6 = "ipv6"

abbrev pub firewall_families : List FirewallFamily
firewall_families = ipv4 ∷ ipv6 ∷ []

abbrev pub base_chains : List String
base_chains = "forward" ∷ "input" ∷ "output" ∷ []

pub data GroupType : Type 0 where
  address_group network_group port_group interface_group mac_group domain_group : GroupType

unfoldable pub group_type_text : GroupType → String
group_type_text address_group = "address-group"
group_type_text network_group = "network-group"
group_type_text port_group = "port-group"
group_type_text interface_group = "interface-group"
group_type_text mac_group = "mac-group"
group_type_text domain_group = "domain-group"

abbrev pub group_types : List GroupType
group_types =
    address_group ∷ network_group ∷ port_group ∷ interface_group ∷ mac_group ∷ domain_group ∷ []

unfoldable pub group_member_leaf : GroupType → String
group_member_leaf address_group = "address"
group_member_leaf network_group = "network"
group_member_leaf port_group = "port"
group_member_leaf interface_group = "interface"
group_member_leaf mac_group = "mac-address"
group_member_leaf domain_group = "address"

pub record FirewallGroup : Type 0 where
  pub group_type : GroupType
  pub name : String
  pub description : Option String
  pub members : List String

pub record FirewallZone : Type 0 where
  pub name : String
  pub description : Option String
  pub local_zone : Bool
  pub interfaces : List String
  pub default_action : Option String
  pub default_log : Bool
  pub from : List (String × String)

pub data RuleAction : Type 0 where
  accept continue drop jump queue reject return synproxy : RuleAction

unfoldable pub action_text : RuleAction → String
action_text accept = "accept"
action_text continue = "continue"
action_text drop = "drop"
action_text jump = "jump"
action_text queue = "queue"
action_text reject = "reject"
action_text return = "return"
action_text synproxy = "synproxy"

pub record FirewallMatch : Type 0 where
  pub address : Option String
  pub port : Option String
  pub mac_address : Option String
  pub address_group : Option String
  pub network_group : Option String
  pub port_group : Option String
  pub mac_group : Option String
  pub domain_group : Option String

pub record FirewallRule : Type 0 where
  pub number : String
  pub action : Option RuleAction
  pub jump_target : Option String
  pub protocol : Option String
  pub description : Option String
  pub disabled : Bool
  pub log : Bool
  pub source : FirewallMatch
  pub destination : FirewallMatch
  pub inbound_interface : Option String
  pub outbound_interface : Option String
  pub icmp_type_name : Option String
  pub raw : Value

pub data RulesetKind : Type 0 where
  base custom : RulesetKind

pub record RulesetRef : Type 0 where
  pub id : String
  pub kind : RulesetKind
  pub family : FirewallFamily

pub record FirewallRuleset : Type 0 where
  pub id : String
  pub kind : RulesetKind
  pub family : FirewallFamily
  pub default_action : Option String
  pub description : Option String
  pub rules : List FirewallRule

pub record FirewallGlobalOptions : Type 0 where
  pub all_ping : Option String
  pub broadcast_ping : Option String
  pub syn_cookies : Option String
  pub log_martians : Option String
  pub ip_src_route : Option String
  pub state_invalid_action : Option String
  pub state_established_action : Option String
  pub state_related_action : Option String
