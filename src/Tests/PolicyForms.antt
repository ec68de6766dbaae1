-- ===== src/Tests/PolicyForms.antt =====
-- Saving the policy forms on the fake router, which has nothing configured.
use vyos_client.Base.{◌++◌, true, [], ◌≡◌, refl, none, inr}
use vyos_client.Base.Text.{trim}
use vyos_client.Json.Paths.{get_path}
use vyos_client.Config.Router.Runs.{run_all}
use vyos_client.Config.Router.Fake.Laws.{fake_router}
use vyos_client.Config.Diff.Effect.{paths}
use vyos_client.Tests.{empty_router, fake_single, empty-get_path}
use vyos_client.Policy.Parse.{parse_route_map_rule}
use vyos_client.Policy.Paths.{route_map_rule_path}
use vyos_client.Policy.PrefixListForm
use vyos_client.Policy.PolicyListForm
use vyos_client.Policy.LocalRouteForm
use vyos_client.Policy.RouteMapForm
use vyos_client.Policy.RouteMapForm.RoundTrip.{
  first_fields, last_fields, route_map_rule_form_to_ops-round_trip,
}

abbrev prefix_rule_values : PrefixListForm.PrefixListRuleFormValues
prefix_rule_values = record PrefixListForm.blank_prefix_list_rule_form_values {
  action = "permit";
  prefix = " 10.0.0.0/8 ";
  ge = " ";
}

abbrev prefix_list_values : PrefixListForm.PrefixListFormValues
prefix_list_values = record { description = " inside " }

abbrev policy_rule_values : PolicyListForm.PolicyListRuleFormValues
policy_rule_values = record { action = "deny"; description = ""; regex = " ^65000_ " }

abbrev policy_list_values : PolicyListForm.PolicyListFormValues
policy_list_values = record { description = "peers" }

abbrev local_route_values : LocalRouteForm.LocalRouteFormValues
local_route_values = record LocalRouteForm.blank_local_route_form_values {
  protocol = "tcp";
  table = "100";
}

abbrev route_map_values : RouteMapForm.RouteMapFormValues
route_map_values = record { description = "out" }

abbrev route_map_rule_values : RouteMapForm.RouteMapRuleFormValues
route_map_rule_values = record RouteMapForm.blank_route_map_rule_form_values {
  action = "permit";
  on_match_next = true;
  set = record RouteMapForm.blank_set { origin = " igp "; weight = "5" };
}

route_map_rule_form_to_ops-round_trip_example :
    RouteMapForm.route_map_rule_to_form_values (
      parse_route_map_rule "10" (
        get_path
          (fake_router.tree (
            run_all fake_router empty_router
              (RouteMapForm.route_map_rule_form_to_ops "OUT" "10" none route_map_rule_values)))
          (route_map_rule_path "OUT" "10" [])))
    ≡ record RouteMapForm.blank_route_map_rule_form_values {
      action = "permit";
      on_match_next = true;
      set = record RouteMapForm.blank_set { origin = "igp"; weight = "5" };
    }
unfolding fake_router empty_router trim route_map_rule_path
route_map_rule_form_to_ops-round_trip_example =
    route_map_rule_form_to_ops-round_trip fake_router empty_router "OUT" "10" none
      route_map_rule_values (inr (refl, empty-get_path (route_map_rule_path "OUT" "10" []) refl))
      (refl, (refl, tt))
      (fake_single (route_map_rule_path "OUT" "10" []) refl
        (paths (first_fields ++ last_fields) RouteMapForm.flag_fields))
