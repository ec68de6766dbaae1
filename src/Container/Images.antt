-- ===== src/Container/Images.antt =====
-- lib/containerImageMatch.ts, and `handleCleanup` of pages/container/ImagesPage.tsx.
pub mod Cleanup
use vyos_client.Base.{
  ℕ, String, Bool, true, not, ◌&&◌, Option, none, some, List, [], ◌∷◌, map, ◌==◌, if◌then◌else◌,
  any, select, eqb, flat_map,
}
use vyos_client.Base.Text.{trim}
use vyos_client.Config.MultiValue.{has, to_set}
use vyos_client.Container.Types.{ContainerDefinition}

-- `ContainerImage` of lib/vyosApi.ts
pub record ContainerImage : Type 0 where
  pub id : String
  pub tags : List String
  pub size_bytes : ℕ
  pub containers : ℕ
  pub created_at : ℕ

unfoldable pub image_is_pulled : String → List ContainerImage → Bool
image_is_pulled image_ref images =
    if trim image_ref == ""
    then true
    else any (λ (img : ContainerImage). has img.tags (trim image_ref)) images

-- `c.image?.trim()`, where the filter `!!ref` keeps it.
abbrev pub image_ref : Option String → List String
image_ref none = []
image_ref (some image) = if trim image == "" then [] else trim image ∷ []

-- `containers.map((c) => c.image?.trim()).filter((ref) => !!ref)`
abbrev pub image_refs : List ContainerDefinition → List String
image_refs containers = flat_map (λ (c : ContainerDefinition). image_ref c.image) containers

abbrev pub is_unused : List String → ContainerImage → Bool
is_unused referenced img = eqb img.containers 0 && not (any (λ tag. has referenced tag) img.tags)

unfoldable pub unreferenced_images :
    List ContainerImage → List ContainerDefinition → List ContainerImage
unfolding to_set
unreferenced_images images containers = select (is_unused (to_set (image_refs containers))) images

-- The loop of `handleCleanup`: the ids that it asks the router to delete, one after the other.
unfoldable pub cleanup_requests : List ContainerImage → List ContainerDefinition → List String
unfolding unreferenced_images
cleanup_requests images containers =
    map (λ (img : ContainerImage). img.id) (unreferenced_images images containers)
