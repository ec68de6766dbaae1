-- ===== src/Tests/Vrrp.antt =====
-- The authentication of a VRRP group on the fake router.
use vyos_client.Base.{ap, String, List, [], ◌∷◌, ◌≡◌, refl, inl}
use vyos_client.Json.{str, shown, as_string}
use vyos_client.Config.Router.Fake.Laws.{fake_router}
use vyos_client.Ha.VrrpForm.Authentication.{
  AreSingle, authenticated, auth_type, password, IsPaired, authentication_ops-chosen,
  authentication_ops-IsPaired,
}
use vyos_client.Tests.{empty_router, empty-get_path}

abbrev auth : List String
auth = "high-availability" ∷ "vrrp" ∷ "group" ∷ "lan" ∷ "authentication" ∷ []

auth-AreSingle : AreSingle fake_router auth
unfolding fake_router
auth-AreSingle = (refl, refl, refl)

authentication_ops-chosen_example :
    (shown (auth_type fake_router auth (authenticated fake_router auth empty_router "s3cret" "ah"))
      ≡ "ah")
    × (password fake_router auth (authenticated fake_router auth empty_router "s3cret" "ah")
        ≡ str "s3cret")
authentication_ops-chosen_example =
    authentication_ops-chosen fake_router auth empty_router "s3cret" "ah" auth-AreSingle refl
      (inl refl)

empty-IsPaired : IsPaired fake_router auth empty_router
unfolding as_string
empty-IsPaired = inl (
    ap shown (
      empty-get_path
        ("high-availability" ∷ "vrrp" ∷ "group" ∷ "lan" ∷ "authentication" ∷ "type" ∷ []) refl))

authentication_ops-IsPaired_example :
    IsPaired fake_router auth (authenticated fake_router auth empty_router "s3cret" "ah")
authentication_ops-IsPaired_example =
    authentication_ops-IsPaired fake_router auth empty_router "s3cret" "ah" auth-AreSingle
      empty-IsPaired
