-- ===== src/Tests/DhcpForms.antt =====
-- Saving the DHCP forms on the fake router, which has nothing configured.
use vyos_client.Base.{String, Bool, true, false, [], ◌≡◌, refl, none, inr}
use vyos_client.Base.Text.{trim}
use vyos_client.Base.Number.{show}
use vyos_client.Json.Paths.{get_path}
use vyos_client.Config.Router.Runs.{run_all}
use vyos_client.Config.Router.Fake.Laws.{fake_router}
use vyos_client.Config.Diff.Effect.{paths}
use vyos_client.Tests.{empty_router, fake_single, empty-get_path}
use vyos_client.Dhcp.Parse.{parse_subnet, subnet_path}
use vyos_client.Dhcp.Form.{
  SharedNetworkFormValues, SubnetFormValues, StaticMappingFormValues,
  blank_shared_network_form_values, blank_subnet_form_values, blank_static_mapping_form_values,
  subnet_to_form_values, subnet_scalar_fields, subnet_form_to_ops,
}
use vyos_client.Dhcp.Form.SubnetRoundTrip.{subnet_form_to_ops-round_trip}

-- An order that never puts one text before another.
abbrev no_order : String → String → Bool
no_order a b = false

abbrev network_values : SharedNetworkFormValues
network_values = record blank_shared_network_form_values {
  options = record { default_router = " 10.0.0.1"; domain_name = "lan" };
  authoritative = true;
}

abbrev subnet_values : SubnetFormValues
subnet_values = record blank_subnet_form_values { subnet_id = "1"; lease = " 3600" }

subnet_form_to_ops-round_trip_example :
    subnet_to_form_values (
      parse_subnet no_order no_order "10.0.0.0/8" (
        get_path
          (fake_router.tree (
            run_all fake_router empty_router
              (subnet_form_to_ops "LAN" "10.0.0.0/8" none subnet_values)))
          (subnet_path "LAN" "10.0.0.0/8" [])))
    ≡ record blank_subnet_form_values { subnet_id = "1"; lease = "3600" }
unfolding fake_router empty_router trim subnet_path show
subnet_form_to_ops-round_trip_example =
    subnet_form_to_ops-round_trip fake_router empty_router no_order no_order "LAN" "10.0.0.0/8" none
      subnet_values (inr (refl, empty-get_path (subnet_path "LAN" "10.0.0.0/8" []) refl))
      (fake_single (subnet_path "LAN" "10.0.0.0/8" []) refl (paths subnet_scalar_fields []))
      (inr (3600, refl))

abbrev mapping_values : StaticMappingFormValues
mapping_values = record blank_static_mapping_form_values { mac = "00:53:00:00:00:01 " }
