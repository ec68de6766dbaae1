-- ===== src/Tests/Interfaces.antt =====
-- Saving the form of a bond on the fake router, which has nothing configured.
use vyos_client.Base.{arith, true, [], ◌≡◌, refl, none, inl, inr}
use vyos_client.Base.Text.{trim}
use vyos_client.Base.Number.{show}
use vyos_client.Json.Paths.{get_path}
use vyos_client.Config.Router.Runs.{run_all}
use vyos_client.Config.Router.Fake.Laws.{fake_router}
use vyos_client.Config.Diff.Effect.{paths}
use vyos_client.Tests.{empty_router, fake_single, empty-get_path}
use vyos_client.Interfaces.Parse.{parse_bond_interface, bond_path}
use vyos_client.Interfaces.Form.{
  BondFormValues, blank_bond_form_values, bond_to_form_values, bond_scalar_fields, bond_form_to_ops,
  common_flag_fields,
}
use vyos_client.Interfaces.Form.BondRoundTrip.{bond_form_to_ops-round_trip}

abbrev bond_values : BondFormValues
bond_values = record blank_bond_form_values {
  common = record blank_bond_form_values.common { mtu = " 1500"; disabled = true };
  mode = "active-backup";
  min_links = "2 ";
}

bond_form_to_ops-round_trip_example :
    bond_to_form_values (
      parse_bond_interface "bond0" (
        get_path
          (fake_router.tree
            (run_all fake_router empty_router (bond_form_to_ops "bond0" none bond_values)))
          (bond_path "bond0" [])))
    ≡ record bond_values { common = record bond_values.common { mtu = "1500" }; min_links = "2" }
unfolding fake_router empty_router trim bond_path show
bond_form_to_ops-round_trip_example =
    bond_form_to_ops-round_trip fake_router empty_router "bond0" none bond_values
      (inr (refl, empty-get_path (bond_path "bond0" []) refl))
      (fake_single (bond_path "bond0" []) refl
        (paths bond_scalar_fields (common_flag_fields (λ v. v.common))))
      (inr (1500, omega arith, refl), inr (2, omega arith, refl), inr refl, inl refl, inl refl)
