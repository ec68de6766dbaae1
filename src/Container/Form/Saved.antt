-- ===== src/Container/Form/Saved.antt =====
-- Saving the form of a container that is there: lib/containerForm.ts.
use vyos_client.Base.{String, true, some, [], ◌∷◌, ◌++◌, ◌≡◌, refl, All, All-map}
use vyos_client.Json.Paths.{get_path, apart, apart_symm}
use vyos_client.Config.Router.{Router}
use vyos_client.Config.Router.Runs.{run_all, run_all-append}
use vyos_client.Config.Diff.{diff_to_ops}
use vyos_client.Config.Diff.Effect.{Saved, paths}
use vyos_client.Config.Diff.Saved.{diff_to_ops-Saved}
use vyos_client.Config.Diff.Later.{Saved-later}
use vyos_client.Config.Diff.Separate.{apart_all-below}
use vyos_client.Config.MultiValue.{multi_value_diff_ops, multi_value_diff_ops-path}
use vyos_client.Container.Types.{ContainerDefinition}
use vyos_client.Container.Paths.{container_name_path}
use vyos_client.Container.Form.{
  ContainerFormValues, container_to_form_values, scalar_fields, flag_fields, container_form_to_ops,
}

-- Saving the form of a container that is there changes exactly the edited fields: afterwards the
-- node of each edited text holds what was typed, trimmed, or nothing where it was blanked, each flag
-- is there where it was chosen, and each other field's node is as before, whatever capabilities were
-- added and removed. Each field's node holds one value.
pub container_form_to_ops-Saved :
    (r : Router) (s : r.State) (name : String) (before : ContainerDefinition)
    (values : ContainerFormValues)
    → All
        (λ p. r.single_valued (container_name_path name [] ++ p) ≡ true)
        (paths scalar_fields flag_fields)
    → Saved scalar_fields flag_fields
        (container_to_form_values before)
        values
        (get_path (r.tree s) (container_name_path name []))
        (get_path
          (r.tree (run_all r s (container_form_to_ops name (some before) values)))
          (container_name_path name []))
unfolding container_form_to_ops
container_form_to_ops-Saved r s name before values single =
    let base = container_name_path name [] in
    let old_values = container_to_form_values before in
    let fields = diff_to_ops base scalar_fields flag_fields old_values values in
    let leaf = base ++ "capability" ∷ [] in
    let capabilities = multi_value_diff_ops leaf old_values.capabilities values.capabilities in
    rw (run_all-append r s fields capabilities) (
      Saved-later r base (run_all r s fields) capabilities scalar_fields flag_fields old_values
        values (get_path (r.tree s) base)
        (All-map _ _
          (λ p h.
            multi_value_diff_ops-path (λ q. apart q (base ++ p) ≡ true) leaf old_values.capabilities
              values.capabilities (apart_symm (base ++ p) leaf h))
          (paths scalar_fields flag_fields)
          (apart_all-below base ("capability" ∷ []) (paths scalar_fields flag_fields) refl))
        (refl, (refl, (refl, (refl, tt))))
        (diff_to_ops-Saved r base scalar_fields flag_fields s old_values values refl single))
