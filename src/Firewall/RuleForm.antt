-- ===== src/Firewall/RuleForm.antt =====
-- lib/firewallRuleForm.ts: the rule form and its diff.
pub mod Action
pub mod Match
pub mod RoundTrip
pub mod Paths
use vyos_client.Base.{String, Bool, true, false, Option, none, some, List, [], ◌∷◌, ◌++◌, or_else}
use vyos_client.Config.Op.{ConfigOp}
use vyos_client.Config.Diff.{ScalarField, FlagField, scalar_ops, flag_ops}
use vyos_client.Firewall.Types.{
  FirewallFamily, RuleAction, action_text, FirewallMatch, FirewallRule, RulesetRef,
}
use vyos_client.Firewall.Parse.{rule_path, icmp_node_name}

pub record MatchFormValues : Type 0 where
  pub address : String
  pub port : String
  pub mac_address : String
  pub address_group : String
  pub network_group : String
  pub port_group : String
  pub mac_group : String
  pub domain_group : String

-- `action: RuleAction | ''` is an option, and `''` is `none`.
pub record RuleFormValues : Type 0 where
  pub action : Option RuleAction
  pub jump_target : String
  pub protocol : String
  pub description : String
  pub disabled : Bool
  pub log : Bool
  pub source : MatchFormValues
  pub destination : MatchFormValues
  pub inbound_interface : String
  pub outbound_interface : String
  pub icmp_type_name : String

abbrev pub blank_match : MatchFormValues
blank_match = record {
  address = "";
  port = "";
  mac_address = "";
  address_group = "";
  network_group = "";
  port_group = "";
  mac_group = "";
  domain_group = "";
}

abbrev pub blank_rule_form_values : RuleFormValues
blank_rule_form_values = record {
  action = none;
  jump_target = "";
  protocol = "";
  description = "";
  disabled = false;
  log = false;
  source = blank_match;
  destination = blank_match;
  inbound_interface = "";
  outbound_interface = "";
  icmp_type_name = "";
}

unfoldable pub match_to_form_values : FirewallMatch → MatchFormValues
match_to_form_values m = record {
  address = or_else m.address "";
  port = or_else m.port "";
  mac_address = or_else m.mac_address "";
  address_group = or_else m.address_group "";
  network_group = or_else m.network_group "";
  port_group = or_else m.port_group "";
  mac_group = or_else m.mac_group "";
  domain_group = or_else m.domain_group "";
}

unfoldable pub rule_to_form_values : FirewallRule → RuleFormValues
unfolding match_to_form_values
rule_to_form_values rule = record {
  action = rule.action;
  jump_target = or_else rule.jump_target "";
  protocol = or_else rule.protocol "";
  description = or_else rule.description "";
  disabled = rule.disabled;
  log = rule.log;
  source = match_to_form_values rule.source;
  destination = match_to_form_values rule.destination;
  inbound_interface = or_else rule.inbound_interface "";
  outbound_interface = or_else rule.outbound_interface "";
  icmp_type_name = or_else rule.icmp_type_name "";
}

-- The text of the action field.
unfoldable pub chosen_text : Option RuleAction → String
unfolding action_text
chosen_text none = ""
chosen_text (some a) = action_text a

abbrev pub scalar : (RuleFormValues → String) → List String → ScalarField RuleFormValues
scalar get segments = record { get = get; segments = segments }

abbrev pub flag : (RuleFormValues → Bool) → List String → FlagField RuleFormValues
flag get segments = record { get = get; segments = segments }

-- The table for one family: the ICMP node's name depends on it.
abbrev pub scalar_fields : FirewallFamily → List (ScalarField RuleFormValues)
scalar_fields family =
    scalar (λ v. chosen_text v.action) ("action" ∷ [])
    ∷ scalar (λ v. v.jump_target) ("jump-target" ∷ [])
    ∷ scalar (λ v. v.protocol) ("protocol" ∷ [])
    ∷ scalar (λ v. v.description) ("description" ∷ [])
    ∷ scalar (λ v. v.source.address) ("source" ∷ "address" ∷ [])
    ∷ scalar (λ v. v.source.port) ("source" ∷ "port" ∷ [])
    ∷ scalar (λ v. v.source.mac_address) ("source" ∷ "mac-address" ∷ [])
    ∷ scalar (λ v. v.source.address_group) ("source" ∷ "group" ∷ "address-group" ∷ [])
    ∷ scalar (λ v. v.source.network_group) ("source" ∷ "group" ∷ "network-group" ∷ [])
    ∷ scalar (λ v. v.source.port_group) ("source" ∷ "group" ∷ "port-group" ∷ [])
    ∷ scalar (λ v. v.source.mac_group) ("source" ∷ "group" ∷ "mac-group" ∷ [])
    ∷ scalar (λ v. v.source.domain_group) ("source" ∷ "group" ∷ "domain-group" ∷ [])
    ∷ scalar (λ v. v.destination.address) ("destination" ∷ "address" ∷ [])
    ∷ scalar (λ v. v.destination.port) ("destination" ∷ "port" ∷ [])
    ∷ scalar (λ v. v.destination.address_group) ("destination" ∷ "group" ∷ "address-group" ∷ [])
    ∷ scalar (λ v. v.destination.network_group) ("destination" ∷ "group" ∷ "network-group" ∷ [])
    ∷ scalar (λ v. v.destination.port_group) ("destination" ∷ "group" ∷ "port-group" ∷ [])
    ∷ scalar (λ v. v.destination.mac_group) ("destination" ∷ "group" ∷ "mac-group" ∷ [])
    ∷ scalar (λ v. v.destination.domain_group) ("destination" ∷ "group" ∷ "domain-group" ∷ [])
    ∷ scalar (λ v. v.inbound_interface) ("inbound-interface" ∷ "name" ∷ [])
    ∷ scalar (λ v. v.outbound_interface) ("outbound-interface" ∷ "name" ∷ [])
    ∷ scalar (λ v. v.icmp_type_name) (icmp_node_name family ∷ "type-name" ∷ [])
    ∷ []

abbrev pub flag_fields : List (FlagField RuleFormValues)
flag_fields = flag (λ v. v.disabled) ("disable" ∷ []) ∷ flag (λ v. v.log) ("log" ∷ []) ∷ []

-- `before ? ruleToFormValues(before) : blankRuleFormValues()`
unfoldable pub before_values : Option FirewallRule → RuleFormValues
unfolding rule_to_form_values
before_values none = blank_rule_form_values
before_values (some rule) = rule_to_form_values rule

unfoldable pub rule_form_to_ops :
    RulesetRef → String → Option FirewallRule → RuleFormValues → List ConfigOp
rule_form_to_ops ref rule_number before values =
    let before' = before_values before in
    scalar_ops (rule_path ref rule_number) (scalar_fields ref.family) before' values
    ++ flag_ops (rule_path ref rule_number) flag_fields before' values
