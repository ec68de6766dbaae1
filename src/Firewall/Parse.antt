-- ===== src/Firewall/Parse.antt =====
-- lib/firewallParse.ts: from the JSON tree of `firewall` to the typed configuration, and the paths
-- of its nodes. `localeCompare` orders texts by the browser's collation, which is an argument.
pub mod Order
use vyos_client.Base.{
  String, Bool, true, false, ◌||◌, Option, none, some, List, [], ◌∷◌, ◌++◌, map, flat_map, find,
  ◌==◌, if◌then◌else◌,
}
use vyos_client.Base.Sorting.{sort_by, number_before}
use vyos_client.Json.{Value, obj, is_record, as_string, as_array, child, is_flag_present, entries}
use vyos_client.Firewall.Types.{
  FirewallFamily, ipv4, ipv6, family_text, firewall_families, base_chains, GroupType,
  group_type_text, group_types, group_member_leaf, FirewallGroup, FirewallZone, RuleAction, accept,
  continue, drop, jump, queue, reject, return, synproxy, action_text, FirewallMatch, FirewallRule,
  RulesetKind, base, custom, RulesetRef, FirewallRuleset, FirewallGlobalOptions,
}

-- `isRecord(v) ? Object.entries(v) : []`
unfoldable pub record_entries : Value → List (String × Value)
unfolding entries
record_entries (obj fields) = entries fields
record_entries _ = []

-- --- zones

-- `if (rulesetName) from[srcZone] = rulesetName`
add_from : String → Option String → List (String × String) → List (String × String)
add_from zone none rest = rest
add_from zone (some name) rest = if name == "" then rest else (zone, name) ∷ rest

parse_from : List (String × Value) → List (String × String)
unfolding add_from
parse_from [] = []
parse_from ((zone, raw) ∷ more) =
    add_from zone (as_string (child (child raw "firewall") "name")) (parse_from more)

parse_zone : String → Value → FirewallZone
unfolding parse_from
parse_zone name raw = record {
  name = name;
  description = as_string (child raw "description");
  local_zone = is_flag_present raw "local-zone";
  interfaces = as_array (child raw "interface");
  default_action = as_string (child raw "default-action");
  default_log = is_flag_present raw "default-log";
  from = parse_from (record_entries (child raw "from"));
}

module _ (locale_before : String → String → Bool) where
  unfoldable pub parse_zones : Value → List FirewallZone
  unfolding parse_zone
  parse_zones firewall =
      sort_by (λ a b. locale_before a.name b.name)
        (map (λ e. parse_zone e.0 e.1) (record_entries (child firewall "zone")))

unfoldable pub zone_path : String → List String → List String
zone_path name rest = "firewall" ∷ "zone" ∷ name ∷ rest

-- --- groups

parse_group : GroupType → String → Value → FirewallGroup
parse_group type name raw = record {
  group_type = type;
  name = name;
  description = as_string (child raw "description");
  members = as_array (child raw (group_member_leaf type));
}

-- The groups in the order of the tree; the result of `parseGroups` is this list sorted.
unfoldable pub collect_groups : Value → List FirewallGroup
unfolding parse_group group_type_text group_member_leaf
collect_groups firewall =
    flat_map
      (λ type.
        map (λ e. parse_group type e.0 e.1)
          (record_entries (child (child firewall "group") (group_type_text type))))
      group_types

module _ (locale_before : String → String → Bool) where
  -- `a.type.localeCompare(b.type) || a.name.localeCompare(b.name)`
  group_before : FirewallGroup → FirewallGroup → Bool
  group_before a b =
      let x = group_type_text a.group_type in
      let y = group_type_text b.group_type in
      if locale_before x y
      then true
      else if locale_before y x
      then false
      else locale_before a.name b.name

  unfoldable pub parse_groups : Value → List FirewallGroup
  unfolding group_before collect_groups
  parse_groups firewall = sort_by group_before (collect_groups firewall)

unfoldable pub group_path : GroupType → String → List String → List String
unfolding group_type_text
group_path type name rest = "firewall" ∷ "group" ∷ group_type_text type ∷ name ∷ rest

-- --- rulesets and rules

unfoldable pub kind_path : RulesetKind → String → FirewallFamily → List String → List String
unfolding family_text
kind_path base id family rest = "firewall" ∷ family_text family ∷ id ∷ "filter" ∷ rest
kind_path custom id family rest = "firewall" ∷ family_text family ∷ "name" ∷ id ∷ rest

unfoldable pub ruleset_path : RulesetRef → List String → List String
unfolding kind_path
ruleset_path ref rest = kind_path ref.kind ref.id ref.family rest

unfoldable pub rule_path : RulesetRef → String → List String → List String
unfolding ruleset_path
rule_path ref rule_number rest = ruleset_path ref ("rule" ∷ rule_number ∷ rest)

abbrev pub rule_actions : List RuleAction
rule_actions = accept ∷ drop ∷ reject ∷ continue ∷ jump ∷ queue ∷ return ∷ synproxy ∷ []

-- `RULE_ACTIONS.find((a) => a === actionRaw)`
unfoldable pub find_action : Option String → Option RuleAction
unfolding action_text
find_action none = none
find_action (some text) = find (λ a. action_text a == text) rule_actions

unfoldable pub parse_match : Value → FirewallMatch
parse_match raw =
    let group_root = child raw "group" in
    record {
      address = as_string (child raw "address");
      port = as_string (child raw "port");
      mac_address = as_string (child raw "mac-address");
      address_group = as_string (child group_root "address-group");
      network_group = as_string (child group_root "network-group");
      port_group = as_string (child group_root "port-group");
      mac_group = as_string (child group_root "mac-group");
      domain_group = as_string (child group_root "domain-group");
    }

unfoldable pub icmp_node_name : FirewallFamily → String
icmp_node_name ipv4 = "icmp"
icmp_node_name ipv6 = "icmpv6"

unfoldable pub parse_rule : FirewallFamily → String → Value → FirewallRule
unfolding find_action parse_match icmp_node_name
parse_rule family number raw = record {
  number = number;
  action = find_action (as_string (child raw "action"));
  jump_target = as_string (child raw "jump-target");
  protocol = as_string (child raw "protocol");
  description = as_string (child raw "description");
  disabled = is_flag_present raw "disable";
  log = is_flag_present raw "log";
  source = parse_match (child raw "source");
  destination = parse_match (child raw "destination");
  inbound_interface = as_string (child (child raw "inbound-interface") "name");
  outbound_interface = as_string (child (child raw "outbound-interface") "name");
  icmp_type_name = as_string (child (child raw (icmp_node_name family)) "type-name");
  raw = raw;
}

unfoldable pub parse_rules : FirewallFamily → Value → List FirewallRule
unfolding parse_rule record_entries number_before
parse_rules family raw =
    sort_by (λ a b. number_before a.number b.number)
      (map (λ e. parse_rule family e.0 e.1) (record_entries (child raw "rule")))

-- One base chain, if its `filter` node is there.
parse_base_chain : FirewallFamily → Value → String → List FirewallRuleset
unfolding parse_rules
parse_base_chain family family_root chain =
    let filter_root = child (child family_root chain) "filter" in
    if is_record filter_root
    then record {
      id = chain;
      kind = base;
      family = family;
      default_action = as_string (child filter_root "default-action");
      description = none;
      rules = parse_rules family filter_root;
    }
      ∷ []
    else []

parse_custom_chain : FirewallFamily → String → Value → FirewallRuleset
parse_custom_chain family name raw = record {
  id = name;
  kind = custom;
  family = family;
  default_action = as_string (child raw "default-action");
  description = as_string (child raw "description");
  rules = parse_rules family raw;
}

parse_family : Value → FirewallFamily → List FirewallRuleset
unfolding parse_base_chain parse_custom_chain family_text
parse_family firewall family =
    let family_root = child firewall (family_text family) in
    flat_map (parse_base_chain family family_root) base_chains
    ++ map (λ e. parse_custom_chain family e.0 e.1) (record_entries (child family_root "name"))

unfoldable pub parse_rulesets : Value → List FirewallRuleset
unfolding parse_family
parse_rulesets firewall = flat_map (parse_family firewall) firewall_families

-- --- global options

enable_disable : Value → Option String
enable_disable v = elim (as_string v) [
  | none ↦ none
  | some s ↦ if s == "enable" || s == "disable" then some s else none
]

unfoldable pub parse_global_options : Value → FirewallGlobalOptions
unfolding enable_disable
parse_global_options firewall =
    let root = child firewall "global-options" in
    let state_root = child root "state-policy" in
    record {
      all_ping = enable_disable (child root "all-ping");
      broadcast_ping = enable_disable (child root "broadcast-ping");
      syn_cookies = enable_disable (child root "syn-cookies");
      log_martians = enable_disable (child root "log-martians");
      ip_src_route = enable_disable (child root "ip-src-route");
      state_invalid_action = as_string (child (child state_root "invalid") "action");
      state_established_action = as_string (child (child state_root "established") "action");
      state_related_action = as_string (child (child state_root "related") "action");
    }

unfoldable pub global_options_path : List String → List String
global_options_path rest = "firewall" ∷ "global-options" ∷ rest
