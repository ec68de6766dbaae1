-- ===== src/Tests/Containers.antt =====
-- The cleanup of images and the update check at concrete inputs.
use vyos_client.Base.{String, true, false, ◌≡◌, refl, some, List, [], ◌∷◌, ◌==◌, ℕ, All}
use vyos_client.Base.Text.{trim}
use vyos_client.Store.Pending.{has_pending_set, latest_pending_op}
use vyos_client.Json.Paths.{get_path}
use vyos_client.Config.Router.Runs.{run_all}
use vyos_client.Config.Router.Fake.Laws.{fake_router}
use vyos_client.Config.Diff.Effect.{Saved, paths}
use vyos_client.Tests.{empty_router, fake_single}
use vyos_client.Container.Paths.{container_name_path}
use vyos_client.Container.Form.{
  ContainerFormValues, blank_container_form_values, container_to_form_values, scalar_fields,
  flag_fields, container_form_to_ops,
}
use vyos_client.Container.Form.Saved.{container_form_to_ops-Saved}
use vyos_client.Container.Types.{ContainerDefinition, blank_container_definition}
use vyos_client.Container.Images.{ContainerImage, unreferenced_images, cleanup_requests}
use vyos_client.Container.Images.Cleanup.{left_images-IsUndisturbed, IsUndisturbed, IsRetained}
use vyos_client.Container.UpdateCheck.{
  ImageUpdate, Panel, mount, check, check_answered, upgrade, can_check, can_upgrade,
}
use vyos_client.Container.UpdateCheck.Steps.{Reachable, Step}
use vyos_client.Container.UpdateCheck.Sound.{Reachable-IsCurrent, Reachable-IsOffered}

abbrev image : String → String → ℕ → ContainerImage
image id tag used = record {
  id = id;
  tags = tag ∷ [];
  size_bytes = 1;
  containers = used;
  created_at = 0;
}

abbrev images : List ContainerImage
images = image "a" "nginx:1" 0 ∷ image "b" "redis:7" 0 ∷ image "c" "old:1" 1 ∷ []

abbrev containers : List ContainerDefinition
containers =
    record (blank_container_definition "web") { image = some " nginx:1" }
    ∷ blank_container_definition "empty"
    ∷ []

requests : cleanup_requests images containers ≡ "b" ∷ []
unfolding cleanup_requests unreferenced_images trim
requests = refl

-- The router deletes the image of Redis.
left_images-IsUndisturbed_example :
    All (IsUndisturbed (λ id. id == "b") images containers) containers
    × All (IsRetained (λ id. id == "b") images containers) images
left_images-IsUndisturbed_example =
    left_images-IsUndisturbed (λ id. id == "b") images containers
      ((refl, (refl, tt)), ((refl, tt), (tt, tt)))

abbrev newer : ImageUpdate
newer = record {
  enabled = true;
  current_tag = "1";
  recognized = true;
  latest_tag = "2";
  update_available = true;
  new_image_ref = "nginx:2";
  major_update = some true;
}

-- A backend that knows one answer.
abbrev Answers : String → ImageUpdate → Type 0
Answers img r = (img ≡ "nginx:1") × (r ≡ newer)

abbrev panel : Panel
panel = mount "nginx:1" "web" [] []

abbrev answered_panel : Panel
answered_panel = check_answered "nginx:1" newer 5 (check panel)

abbrev pulling_panel : Panel
pulling_panel = upgrade "nginx:2" answered_panel

answered_panel-Reachable : Reachable Answers answered_panel
unfolding can_check check check_answered mount
answered_panel-Reachable =
    Reachable.stepped (check panel) answered_panel
      (Reachable.stepped panel (check panel) (Reachable.mounted "nginx:1" "web" [] [] tt)
        (Step.checks_clicked panel refl))
      (Step.check_answers (check panel) "nginx:1" newer 5 refl (refl, refl))

pulling_panel-Reachable : Reachable Answers pulling_panel
unfolding can_upgrade check check_answered upgrade mount has_pending_set latest_pending_op
pulling_panel-Reachable =
    Reachable.stepped answered_panel pulling_panel answered_panel-Reachable
      (Step.upgrade_clicked answered_panel "nginx:2" refl)

Reachable-IsCurrent_example : Answers "nginx:1" newer
unfolding check check_answered mount
Reachable-IsCurrent_example =
    Reachable-IsCurrent Answers answered_panel newer answered_panel-Reachable refl

Reachable-IsOffered_example :
    (r : ImageUpdate) × Answers "nginx:1" r
    × (r.new_image_ref ≡ "nginx:2")
    × (r.enabled ≡ true)
    × (r.recognized ≡ true)
    × (r.update_available ≡ true)
    × (false ≡ false)
unfolding check check_answered upgrade mount has_pending_set latest_pending_op
Reachable-IsOffered_example =
    Reachable-IsOffered Answers pulling_panel "nginx:2" pulling_panel-Reachable refl

abbrev edited_values : ContainerFormValues
edited_values = record blank_container_form_values {
  image = "nginx:2 ";
  disabled = true;
  capabilities = "net-admin" ∷ [];
}

container_form_to_ops-Saved_example :
    Saved scalar_fields flag_fields
      (container_to_form_values (blank_container_definition "web"))
      edited_values
      (get_path (fake_router.tree empty_router) (container_name_path "web" []))
      (get_path
        (fake_router.tree (
          run_all fake_router empty_router
            (container_form_to_ops "web" (some (blank_container_definition "web")) edited_values)))
        (container_name_path "web" []))
unfolding fake_router empty_router container_name_path
container_form_to_ops-Saved_example =
    container_form_to_ops-Saved fake_router empty_router "web" (blank_container_definition "web")
      edited_values
      (fake_single (container_name_path "web" []) refl (paths scalar_fields flag_fields))
