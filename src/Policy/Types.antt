-- ===== src/Policy/Types.antt =====
-- lib/policyTypes.ts. An optional field is an `Option`; a field whose type is a union of texts is
-- read by a cast, so it holds any text.
use vyos_client.Base.{String, Bool, false, Option, none, List}

pub data PolicyListKind : Type 0 where
  as_path community extcommunity large_community : PolicyListKind

pub data PrefixListFamily : Type 0 where
  ipv4 ipv6 : PrefixListFamily

pub data LocalRouteFamily : Type 0 where
  ipv4 ipv6 : LocalRouteFamily

pub record PolicyListRule : Type 0 where
  pub number : String
  pub action : Option String
  pub description : Option String
  pub regex : Option String

pub record PolicyList : Type 0 where
  pub kind : PolicyListKind
  pub name : String
  pub description : Option String
  pub rules : List PolicyListRule

pub record PrefixListRule : Type 0 where
  pub number : String
  pub action : Option String
  pub description : Option String
  pub prefix : Option String
  pub ge : Option String
  pub le : Option String

pub record PrefixList : Type 0 where
  pub family : PrefixListFamily
  pub name : String
  pub description : Option String
  pub rules : List PrefixListRule

pub record RouteMapMatch : Type 0 where
  pub as_path : Option String
  pub community_list : Option String
  pub community_exact_match : Bool
  pub ip_prefix_list : Option String
  pub ipv6_prefix_list : Option String
  pub protocol : Option String
  pub metric : Option String
  pub local_preference : Option String
  pub tag : Option String

pub record RouteMapSet : Type 0 where
  pub metric : Option String
  pub local_preference : Option String
  pub as_path_prepend : Option String
  pub as_path_exclude : Option String
  pub community_add : Option String
  pub community_replace : Option String
  pub community_none : Bool
  pub community_delete : Option String
  pub origin : Option String
  pub tag : Option String
  pub weight : Option String

pub record RouteMapRule : Type 0 where
  pub number : String
  pub action : Option String
  pub description : Option String
  pub call : Option String
  pub on_match_goto : Option String
  pub on_match_next : Bool
  pub match : RouteMapMatch
  pub set : RouteMapSet

pub record RouteMap : Type 0 where
  pub name : String
  pub description : Option String
  pub rules : List RouteMapRule

pub record LocalRouteRule : Type 0 where
  pub family : LocalRouteFamily
  pub number : String
  pub protocol : Option String
  pub fwmark : Option String
  pub source_addresses : List String
  pub source_port : Option String
  pub destination_addresses : List String
  pub destination_port : Option String
  pub inbound_interface : Option String
  pub table : Option String
  pub vrf : Option String

pub record PolicyConfig : Type 0 where
  pub prefix_lists : List PrefixList
  pub as_path_lists : List PolicyList
  pub community_lists : List PolicyList
  pub extcommunity_lists : List PolicyList
  pub large_community_lists : List PolicyList
  pub route_maps : List RouteMap
  pub local_routes : List LocalRouteRule

abbrev pub blank_route_map_match : RouteMapMatch
blank_route_map_match = record {
  as_path = none;
  community_list = none;
  community_exact_match = false;
  ip_prefix_list = none;
  ipv6_prefix_list = none;
  protocol = none;
  metric = none;
  local_preference = none;
  tag = none;
}

abbrev pub blank_route_map_set : RouteMapSet
blank_route_map_set = record {
  metric = none;
  local_preference = none;
  as_path_prepend = none;
  as_path_exclude = none;
  community_add = none;
  community_replace = none;
  community_none = false;
  community_delete = none;
  origin = none;
  tag = none;
  weight = none;
}
