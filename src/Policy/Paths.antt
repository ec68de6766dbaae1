-- ===== src/Policy/Paths.antt =====
-- lib/policyParse.ts: the paths of the nodes.
use vyos_client.Base.{String, List, ◌∷◌}
use vyos_client.Policy.Types.{
  PolicyListKind, as_path, community, extcommunity, large_community, PrefixListFamily,
  LocalRouteFamily,
}

unfoldable pub prefix_list_node : PrefixListFamily → String
prefix_list_node PrefixListFamily.ipv4 = "prefix-list"
prefix_list_node PrefixListFamily.ipv6 = "prefix-list6"

unfoldable pub prefix_list_path : PrefixListFamily → String → List String → List String
unfolding prefix_list_node
prefix_list_path family name rest = "policy" ∷ prefix_list_node family ∷ name ∷ rest

unfoldable pub prefix_list_rule_path :
    PrefixListFamily → String → String → List String → List String
unfolding prefix_list_path
prefix_list_rule_path family name number rest =
    prefix_list_path family name ("rule" ∷ number ∷ rest)

-- The kind's text, with `-list` after it.
unfoldable pub policy_list_node : PolicyListKind → String
policy_list_node as_path = "as-path-list"
policy_list_node community = "community-list"
policy_list_node extcommunity = "extcommunity-list"
policy_list_node large_community = "large-community-list"

unfoldable pub policy_list_path : PolicyListKind → String → List String → List String
unfolding policy_list_node
policy_list_path kind name rest = "policy" ∷ policy_list_node kind ∷ name ∷ rest

unfoldable pub policy_list_rule_path : PolicyListKind → String → String → List String → List String
unfolding policy_list_path
policy_list_rule_path kind name number rest = policy_list_path kind name ("rule" ∷ number ∷ rest)

unfoldable pub route_map_path : String → List String → List String
route_map_path name rest = "policy" ∷ "route-map" ∷ name ∷ rest

unfoldable pub route_map_rule_path : String → String → List String → List String
unfolding route_map_path
route_map_rule_path name number rest = route_map_path name ("rule" ∷ number ∷ rest)

unfoldable pub local_route_node : LocalRouteFamily → String
local_route_node LocalRouteFamily.ipv4 = "local-route"
local_route_node LocalRouteFamily.ipv6 = "local-route6"

unfoldable pub local_route_path : LocalRouteFamily → List String → List String
unfolding local_route_node
local_route_path family rest = "policy" ∷ local_route_node family ∷ rest

unfoldable pub local_route_rule_path : LocalRouteFamily → String → List String → List String
unfolding local_route_path
local_route_rule_path family number rest = local_route_path family ("rule" ∷ number ∷ rest)
