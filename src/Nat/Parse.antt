-- ===== src/Nat/Parse.antt =====
-- lib/natParse.ts: from the JSON tree of `nat` to the typed rules, and the paths of their nodes.
pub mod Order
use vyos_client.Base.{String, Option, none, List, ◌∷◌, map}
use vyos_client.Base.Sorting.{sort_by, number_before}
use vyos_client.Json.{Value, as_string, child, is_flag_present}
use vyos_client.Firewall.Parse.{record_entries}
use vyos_client.Nat.Types.{
  NatRuleKind, source, destination, kind_text, NatMatch, NatRule, NatStaticRule, NatConfig,
}

unfoldable pub parse_match : Value → NatMatch
parse_match raw =
    let group_root = child raw "group" in
    record {
      address = as_string (child raw "address");
      port = as_string (child raw "port");
      address_group = as_string (child group_root "address-group");
      network_group = as_string (child group_root "network-group");
      port_group = as_string (child group_root "port-group");
    }

unfoldable pub interface_segment : NatRuleKind → String
interface_segment source = "outbound-interface"
interface_segment destination = "inbound-interface"

-- `kind === 'destination' ? asString(...) : undefined`
unfoldable pub redirect_port_of : NatRuleKind → Value → Option String
redirect_port_of source raw = none
redirect_port_of destination raw =
    as_string (child (child (child raw "translation") "redirect") "port")

unfoldable pub parse_rule : NatRuleKind → String → Value → NatRule
unfolding parse_match interface_segment redirect_port_of
parse_rule kind number raw =
    let translation_root = child raw "translation" in
    record {
      kind = kind;
      number = number;
      description = as_string (child raw "description");
      interface_name = as_string (child (child raw (interface_segment kind)) "name");
      protocol = as_string (child raw "protocol");
      source = parse_match (child raw "source");
      destination = parse_match (child raw "destination");
      translation_address = as_string (child translation_root "address");
      translation_port = as_string (child translation_root "port");
      redirect_port = redirect_port_of kind raw;
      disabled = is_flag_present raw "disable";
      exclude = is_flag_present raw "exclude";
      log = is_flag_present raw "log";
    }

unfoldable pub parse_rules : NatRuleKind → Value → List NatRule
unfolding parse_rule record_entries number_before
parse_rules kind root =
    sort_by (λ a b. number_before a.number b.number)
      (map (λ e. parse_rule kind e.0 e.1) (record_entries (child root "rule")))

unfoldable pub parse_static_rule : String → Value → NatStaticRule
parse_static_rule number raw = record {
  number = number;
  description = as_string (child raw "description");
  destination_address = as_string (child (child raw "destination") "address");
  interface_name = as_string (child raw "inbound-interface");
  translation_address = as_string (child (child raw "translation") "address");
  log = is_flag_present raw "log";
}

unfoldable pub parse_static_rules : Value → List NatStaticRule
unfolding parse_static_rule record_entries number_before
parse_static_rules nat =
    sort_by (λ a b. number_before a.number b.number)
      (map (λ e. parse_static_rule e.0 e.1) (record_entries (child (child nat "static") "rule")))

unfoldable pub parse_nat_config : Value → NatConfig
unfolding parse_rules parse_static_rules
parse_nat_config nat = record {
  source_rules = parse_rules source (child nat "source");
  destination_rules = parse_rules destination (child nat "destination");
  static_rules = parse_static_rules nat;
}

unfoldable pub nat_rule_path : NatRuleKind → String → List String → List String
unfolding kind_text
nat_rule_path kind number rest = "nat" ∷ kind_text kind ∷ "rule" ∷ number ∷ rest

unfoldable pub nat_rule_interface_path : NatRuleKind → String → List String → List String
unfolding nat_rule_path interface_segment
nat_rule_interface_path kind number rest = nat_rule_path kind number (interface_segment kind ∷ rest)

unfoldable pub nat_static_rule_path : String → List String → List String
nat_static_rule_path number rest = "nat" ∷ "static" ∷ "rule" ∷ number ∷ rest
