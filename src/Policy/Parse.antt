-- ===== src/Policy/Parse.antt =====
-- lib/policyParse.ts: from the JSON tree of `policy` to the typed configuration. `localeCompare`
-- orders names by the browser's collation, which is an argument.
use vyos_client.Base.{String, Bool, Option, none, some, List, [], ◌∷◌, ◌++◌, map}
use vyos_client.Base.Sorting.{sort_by, number_before}
use vyos_client.Json.{Value, as_string, as_string_array, child, is_flag_present}
use vyos_client.Firewall.Parse.{record_entries}
use vyos_client.Policy.Types.{
  PolicyListKind, as_path, community, extcommunity, large_community, PrefixListFamily,
  LocalRouteFamily, PolicyListRule, PolicyList, PrefixListRule, PrefixList, RouteMapMatch,
  RouteMapSet, RouteMapRule, RouteMap, LocalRouteRule, PolicyConfig, blank_route_map_match,
  blank_route_map_set,
}

-- `texts[0]`
abbrev pub first : List String → Option String
first [] = none
first (text ∷ texts) = some text

unfoldable pub parse_prefix_list_rule : String → Value → PrefixListRule
parse_prefix_list_rule number raw = record {
  number = number;
  action = as_string (child raw "action");
  description = as_string (child raw "description");
  prefix = as_string (child raw "prefix");
  ge = as_string (child raw "ge");
  le = as_string (child raw "le");
}

-- One entry of `parsePrefixLists`.
unfoldable pub parse_prefix_list : PrefixListFamily → String → Value → PrefixList
unfolding parse_prefix_list_rule record_entries number_before
parse_prefix_list family name raw = record {
  family = family;
  name = name;
  description = as_string (child raw "description");
  rules =
      sort_by (λ a b. number_before a.number b.number)
        (map (λ e. parse_prefix_list_rule e.0 e.1) (record_entries (child raw "rule")));
}

unfoldable pub parse_policy_list_rule : String → Value → PolicyListRule
parse_policy_list_rule number raw = record {
  number = number;
  action = as_string (child raw "action");
  description = as_string (child raw "description");
  regex = as_string (child raw "regex");
}

-- One entry of `parsePolicyLists`.
unfoldable pub parse_policy_list : PolicyListKind → String → Value → PolicyList
unfolding parse_policy_list_rule record_entries number_before
parse_policy_list kind name raw = record {
  kind = kind;
  name = name;
  description = as_string (child raw "description");
  rules =
      sort_by (λ a b. number_before a.number b.number)
        (map (λ e. parse_policy_list_rule e.0 e.1) (record_entries (child raw "rule")));
}

unfoldable pub parse_route_map_match : Value → RouteMapMatch
parse_route_map_match raw =
    let community_root = child raw "community" in
    record blank_route_map_match {
      as_path = as_string (child raw "as-path");
      community_list = as_string (child community_root "community-list");
      community_exact_match = is_flag_present community_root "exact-match";
      ip_prefix_list = as_string (child (child (child raw "ip") "address") "prefix-list");
      ipv6_prefix_list = as_string (child (child (child raw "ipv6") "address") "prefix-list");
      protocol = as_string (child raw "protocol");
      metric = as_string (child raw "metric");
      local_preference = as_string (child raw "local-preference");
      tag = as_string (child raw "tag");
    }

unfoldable pub parse_route_map_set : Value → RouteMapSet
parse_route_map_set raw =
    let as_path_root = child raw "as-path" in
    let community_root = child raw "community" in
    record blank_route_map_set {
      metric = as_string (child raw "metric");
      local_preference = as_string (child raw "local-preference");
      as_path_prepend = as_string (child as_path_root "prepend");
      as_path_exclude = as_string (child as_path_root "exclude");
      community_add = first (as_string_array (child community_root "add"));
      community_replace = first (as_string_array (child community_root "replace"));
      community_none = is_flag_present community_root "none";
      community_delete = as_string (child community_root "delete");
      origin = as_string (child raw "origin");
      tag = as_string (child raw "tag");
      weight = as_string (child raw "weight");
    }

unfoldable pub parse_route_map_rule : String → Value → RouteMapRule
unfolding parse_route_map_match parse_route_map_set
parse_route_map_rule number raw =
    let on_match_root = child raw "on-match" in
    record {
      number = number;
      action = as_string (child raw "action");
      description = as_string (child raw "description");
      call = as_string (child raw "call");
      on_match_goto = as_string (child on_match_root "goto");
      on_match_next = is_flag_present on_match_root "next";
      match = parse_route_map_match (child raw "match");
      set = parse_route_map_set (child raw "set");
    }

-- One entry of `parseRouteMaps`.
unfoldable pub parse_route_map : String → Value → RouteMap
unfolding parse_route_map_rule record_entries number_before
parse_route_map name raw = record {
  name = name;
  description = as_string (child raw "description");
  rules =
      sort_by (λ a b. number_before a.number b.number)
        (map (λ e. parse_route_map_rule e.0 e.1) (record_entries (child raw "rule")));
}

unfoldable pub parse_local_route_rule : LocalRouteFamily → String → Value → LocalRouteRule
parse_local_route_rule family number raw =
    let set_root = child raw "set" in
    let source_root = child raw "source" in
    let destination_root = child raw "destination" in
    record {
      family = family;
      number = number;
      protocol = as_string (child raw "protocol");
      fwmark = as_string (child raw "fwmark");
      source_addresses = as_string_array (child source_root "address");
      source_port = as_string (child source_root "port");
      destination_addresses = as_string_array (child destination_root "address");
      destination_port = as_string (child destination_root "port");
      inbound_interface = as_string (child raw "inbound-interface");
      table = as_string (child set_root "table");
      vrf = as_string (child set_root "vrf");
    }

unfoldable pub parse_local_routes : LocalRouteFamily → Value → List LocalRouteRule
unfolding parse_local_route_rule record_entries number_before
parse_local_routes family root =
    sort_by (λ a b. number_before a.number b.number)
      (map (λ e. parse_local_route_rule family e.0 e.1) (record_entries (child root "rule")))

module _ (locale_before : String → String → Bool) where
  unfoldable pub parse_prefix_lists : PrefixListFamily → Value → List PrefixList
  unfolding parse_prefix_list record_entries
  parse_prefix_lists family root =
      sort_by (λ a b. locale_before a.name b.name)
        (map (λ e. parse_prefix_list family e.0 e.1) (record_entries root))

  unfoldable pub parse_policy_lists : PolicyListKind → Value → List PolicyList
  unfolding parse_policy_list record_entries
  parse_policy_lists kind root =
      sort_by (λ a b. locale_before a.name b.name)
        (map (λ e. parse_policy_list kind e.0 e.1) (record_entries root))

  unfoldable pub parse_route_maps : Value → List RouteMap
  unfolding parse_route_map record_entries
  parse_route_maps root =
      sort_by (λ a b. locale_before a.name b.name)
        (map (λ e. parse_route_map e.0 e.1) (record_entries root))

  unfoldable pub parse_policy_config : Value → PolicyConfig
  unfolding parse_prefix_lists parse_policy_lists parse_route_maps parse_local_routes
  parse_policy_config policy = record {
    prefix_lists =
        parse_prefix_lists PrefixListFamily.ipv4 (child policy "prefix-list")
        ++ parse_prefix_lists PrefixListFamily.ipv6 (child policy "prefix-list6");
    as_path_lists = parse_policy_lists as_path (child policy "as-path-list");
    community_lists = parse_policy_lists community (child policy "community-list");
    extcommunity_lists = parse_policy_lists extcommunity (child policy "extcommunity-list");
    large_community_lists =
        parse_policy_lists large_community (child policy "large-community-list");
    route_maps = parse_route_maps (child policy "route-map");
    local_routes =
        parse_local_routes LocalRouteFamily.ipv4 (child policy "local-route")
        ++ parse_local_routes LocalRouteFamily.ipv6 (child policy "local-route6");
  }
