-- ===== src/Policy/RouteMapForm.antt =====
-- lib/routeMapForm.ts: the forms of a route map and of a rule in it.
pub mod RoundTrip
pub mod MapRoundTrip
use vyos_client.Base.{String, Bool, true, false, Option, none, some, List, [], ◌∷◌, ◌++◌, or_else}
use vyos_client.Config.Op.{ConfigOp, delete_node}
use vyos_client.Config.Diff.{ScalarField, FlagField, scalar_ops, flag_ops, scalar_field_ops}
use vyos_client.Policy.Types.{RouteMap, RouteMapRule, RouteMapMatch, RouteMapSet}
use vyos_client.Policy.Paths.{route_map_path, route_map_rule_path}

pub record RouteMapFormValues : Type 0 where
  pub description : String

abbrev pub blank_route_map_form_values : RouteMapFormValues
blank_route_map_form_values = record { description = "" }

unfoldable pub route_map_to_form_values : RouteMap → RouteMapFormValues
route_map_to_form_values x = record { description = or_else x.description "" }

-- The values of the form as it was opened.
unfoldable pub route_map_before : Option RouteMap → RouteMapFormValues
unfolding route_map_to_form_values
route_map_before none = blank_route_map_form_values
route_map_before (some before) = route_map_to_form_values before

unfoldable pub route_map_form_to_ops : String → Option RouteMap → RouteMapFormValues → List ConfigOp
route_map_form_to_ops name before values =
    scalar_field_ops (route_map_path name ("description" ∷ []))
      (route_map_before before).description values.description

unfoldable pub delete_route_map_op : String → ConfigOp
unfolding route_map_path
delete_route_map_op name = delete_node (route_map_path name [])

pub record RouteMapMatchFormValues : Type 0 where
  pub as_path : String
  pub community_list : String
  pub community_exact_match : Bool
  pub ip_prefix_list : String
  pub ipv6_prefix_list : String
  pub protocol : String
  pub metric : String
  pub local_preference : String
  pub tag : String

abbrev pub blank_match : RouteMapMatchFormValues
blank_match = record {
  as_path = "";
  community_list = "";
  community_exact_match = false;
  ip_prefix_list = "";
  ipv6_prefix_list = "";
  protocol = "";
  metric = "";
  local_preference = "";
  tag = "";
}

unfoldable pub match_to_form_values : RouteMapMatch → RouteMapMatchFormValues
match_to_form_values m = record {
  as_path = or_else m.as_path "";
  community_list = or_else m.community_list "";
  community_exact_match = m.community_exact_match;
  ip_prefix_list = or_else m.ip_prefix_list "";
  ipv6_prefix_list = or_else m.ipv6_prefix_list "";
  protocol = or_else m.protocol "";
  metric = or_else m.metric "";
  local_preference = or_else m.local_preference "";
  tag = or_else m.tag "";
}

pub record RouteMapSetFormValues : Type 0 where
  pub metric : String
  pub local_preference : String
  pub as_path_prepend : String
  pub as_path_exclude : String
  pub community_add : String
  pub community_replace : String
  pub community_none : Bool
  pub community_delete : String
  pub origin : String
  pub tag : String
  pub weight : String

abbrev pub blank_set : RouteMapSetFormValues
blank_set = record {
  metric = "";
  local_preference = "";
  as_path_prepend = "";
  as_path_exclude = "";
  community_add = "";
  community_replace = "";
  community_none = false;
  community_delete = "";
  origin = "";
  tag = "";
  weight = "";
}

unfoldable pub set_to_form_values : RouteMapSet → RouteMapSetFormValues
set_to_form_values s = record {
  metric = or_else s.metric "";
  local_preference = or_else s.local_preference "";
  as_path_prepend = or_else s.as_path_prepend "";
  as_path_exclude = or_else s.as_path_exclude "";
  community_add = or_else s.community_add "";
  community_replace = or_else s.community_replace "";
  community_none = s.community_none;
  community_delete = or_else s.community_delete "";
  origin = or_else s.origin "";
  tag = or_else s.tag "";
  weight = or_else s.weight "";
}

pub record RouteMapRuleFormValues : Type 0 where
  pub action : String
  pub description : String
  pub call : String
  pub on_match_goto : String
  pub on_match_next : Bool
  pub match : RouteMapMatchFormValues
  pub set : RouteMapSetFormValues

abbrev pub blank_route_map_rule_form_values : RouteMapRuleFormValues
blank_route_map_rule_form_values = record {
  action = "";
  description = "";
  call = "";
  on_match_goto = "";
  on_match_next = false;
  match = blank_match;
  set = blank_set;
}

unfoldable pub route_map_rule_to_form_values : RouteMapRule → RouteMapRuleFormValues
unfolding match_to_form_values set_to_form_values
route_map_rule_to_form_values rule = record {
  action = or_else rule.action "";
  description = or_else rule.description "";
  call = or_else rule.call "";
  on_match_goto = or_else rule.on_match_goto "";
  on_match_next = rule.on_match_next;
  match = match_to_form_values rule.match;
  set = set_to_form_values rule.set;
}

abbrev pub scalar_fields : List (ScalarField RouteMapRuleFormValues)
scalar_fields =
    record { get = λ v. v.action; segments = "action" ∷ [] }
    ∷ record { get = λ v. v.description; segments = "description" ∷ [] }
    ∷ record { get = λ v. v.call; segments = "call" ∷ [] }
    ∷ record { get = λ v. v.on_match_goto; segments = "on-match" ∷ "goto" ∷ [] }
    ∷ record { get = λ v. v.match.as_path; segments = "match" ∷ "as-path" ∷ [] }
    ∷ record {
      get = λ v. v.match.community_list;
      segments = "match" ∷ "community" ∷ "community-list" ∷ [];
    }
    ∷ record {
      get = λ v. v.match.ip_prefix_list;
      segments = "match" ∷ "ip" ∷ "address" ∷ "prefix-list" ∷ [];
    }
    ∷ record {
      get = λ v. v.match.ipv6_prefix_list;
      segments = "match" ∷ "ipv6" ∷ "address" ∷ "prefix-list" ∷ [];
    }
    ∷ record { get = λ v. v.match.protocol; segments = "match" ∷ "protocol" ∷ [] }
    ∷ record { get = λ v. v.match.metric; segments = "match" ∷ "metric" ∷ [] }
    ∷ record { get = λ v. v.match.local_preference; segments = "match" ∷ "local-preference" ∷ [] }
    ∷ record { get = λ v. v.match.tag; segments = "match" ∷ "tag" ∷ [] }
    ∷ record { get = λ v. v.set.metric; segments = "set" ∷ "metric" ∷ [] }
    ∷ record { get = λ v. v.set.local_preference; segments = "set" ∷ "local-preference" ∷ [] }
    ∷ record { get = λ v. v.set.as_path_prepend; segments = "set" ∷ "as-path" ∷ "prepend" ∷ [] }
    ∷ record { get = λ v. v.set.as_path_exclude; segments = "set" ∷ "as-path" ∷ "exclude" ∷ [] }
    ∷ record { get = λ v. v.set.community_add; segments = "set" ∷ "community" ∷ "add" ∷ [] }
    ∷ record { get = λ v. v.set.community_replace; segments = "set" ∷ "community" ∷ "replace" ∷ [] }
    ∷ record { get = λ v. v.set.community_delete; segments = "set" ∷ "community" ∷ "delete" ∷ [] }
    ∷ record { get = λ v. v.set.origin; segments = "set" ∷ "origin" ∷ [] }
    ∷ record { get = λ v. v.set.tag; segments = "set" ∷ "tag" ∷ [] }
    ∷ record { get = λ v. v.set.weight; segments = "set" ∷ "weight" ∷ [] }
    ∷ []

abbrev pub flag_fields : List (FlagField RouteMapRuleFormValues)
flag_fields =
    record { get = λ v. v.on_match_next; segments = "on-match" ∷ "next" ∷ [] }
    ∷ record {
      get = λ v. v.match.community_exact_match;
      segments = "match" ∷ "community" ∷ "exact-match" ∷ [];
    }
    ∷ record { get = λ v. v.set.community_none; segments = "set" ∷ "community" ∷ "none" ∷ [] }
    ∷ []

-- The values of the form as it was opened.
unfoldable pub route_map_rule_before : Option RouteMapRule → RouteMapRuleFormValues
unfolding route_map_rule_to_form_values
route_map_rule_before none = blank_route_map_rule_form_values
route_map_rule_before (some before) = route_map_rule_to_form_values before

unfoldable pub route_map_rule_form_to_ops :
    String → String → Option RouteMapRule → RouteMapRuleFormValues → List ConfigOp
route_map_rule_form_to_ops map_name rule_number before values =
    scalar_ops (route_map_rule_path map_name rule_number) scalar_fields
      (route_map_rule_before before) values
    ++ flag_ops (route_map_rule_path map_name rule_number) flag_fields
        (route_map_rule_before before) values

unfoldable pub delete_route_map_rule_op : String → String → ConfigOp
unfolding route_map_rule_path
delete_route_map_rule_op map_name rule_number =
    delete_node (route_map_rule_path map_name rule_number [])
