-- ===== src/Container/Images/Cleanup.antt =====
-- What the cleanup of unused images takes from the router: lib/containerImageMatch.ts.
use vyos_client.Base.{
  ◌||◌, ◌⊎◌, map, sym, All-map, All-zip, eqb, eqb_iff, String, Bool, true, false, not, ◌&&◌, ◌≡◌,
  refl, ap, subst, if◌then◌else◌, ◌∙◌, Option, none, some, List, [], ◌∷◌, ◌==◌, or_else, eq_refl,
  All-split, eq_iff, arith, any, select, All, Bool-cases, inl, inr,
}
use vyos_client.Base.Text.{trim, eq-false_of_ne, ne_of_eq-false}
use vyos_client.Config.MultiValue.{has, to_set, has-to_set}
use vyos_client.Container.Types.{ContainerDefinition}
use vyos_client.Container.Images.{
  ContainerImage, image_is_pulled, image_ref, image_refs, is_unused, unreferenced_images,
  cleanup_requests,
}

-- No two images have one id.
abbrev pub IsDistinct : List ContainerImage → Type 0
IsDistinct [] = Unit
IsDistinct (img ∷ images) =
    All (λ (other : ContainerImage). (img.id == other.id) ≡ false) images × IsDistinct images

-- The images that are left once the router has answered the requests of the cleanup: it takes away
-- those whose deletion was asked for by their id and succeeds.
abbrev pub left_images :
    (String → Bool) → List ContainerImage → List ContainerDefinition → List ContainerImage
left_images succeeds images containers =
    select (λ img. not (has (cleanup_requests images containers) img.id && succeeds img.id)) images

has-any :
    (p : String → Bool) (xs : List String) (v : String)
    → has xs v ≡ true
    → p v ≡ true
    → any p xs ≡ true
has-any p [] v h k = cc
has-any p (x ∷ xs) v h k =
    let (to, _) = eq_iff x v in
    elim (Bool-cases (x == v)) [
      | inl same ↦ rw (ap p (to same), k) refl
      | inr other ↦ ground (arith, has-any p xs v (ground arith) k)
    ]

-- An image that carries a referenced tag is not among the unused ones.
referenced-is_unused :
    (refs : List String) (img : ContainerImage) (ref : String)
    → has refs ref ≡ true
    → has img.tags ref ≡ true
    → is_unused (to_set refs) img ≡ false
referenced-is_unused refs img ref h k =
    let used = has-any (has (to_set refs)) img.tags ref k (has-to_set refs ref ∙ h) in ground arith

-- The ids of the images that pass a test.
abbrev passing : (ContainerImage → Bool) → List ContainerImage → List String
passing p images = map (λ (img : ContainerImage). img.id) (select p images)

-- An id of another image is not among the ids.
has-other :
    (p : ContainerImage → Bool) (images : List ContainerImage) (id : String)
    → All (λ (other : ContainerImage). (id == other.id) ≡ false) images
    → has (passing p images) id ≡ false
has-other p [] id h = refl
has-other p (img ∷ images) id (h, hs) =
    let ih = has-other p images id hs in
    let apart : (img.id == id) ≡ false =
      eq-false_of_ne img.id id (λ e. ne_of_eq-false id img.id h (sym e)) in
    elim (Bool-cases (p img)) [ inl kept ↦ rw (kept, apart) ih | inr left_out ↦ rw left_out ih ]

passing-cons :
    (p : ContainerImage → Bool) (img : ContainerImage) (images : List ContainerImage) (id : String)
    → has (passing p (img ∷ images)) id ≡ ((p img && (img.id == id)) || has (passing p images) id)
passing-cons p img images id = elim (Bool-cases (p img)) [
  | inl kept ↦ rw kept refl
  | inr left_out ↦ rw left_out refl
]

-- Where ids differ, the image of an id that passed has passed.
has-passing :
    (p : ContainerImage → Bool) (images : List ContainerImage)
    → IsDistinct images
    → All (λ (img : ContainerImage). has (passing p images) img.id ≡ p img) images
has-passing p [] h = tt
has-passing p (img ∷ images) (h, hs) =
    let none_other = has-other p images img.id h in
    (
      passing-cons p img images img.id ∙ ground (arith, eq_refl img.id, none_other),
      All-zip (λ (other : ContainerImage). (img.id == other.id) ≡ false)
          (λ (other : ContainerImage). has (passing p images) other.id ≡ p other)
          (λ (other : ContainerImage). has (passing p (img ∷ images)) other.id ≡ p other)
          (λ other e k. passing-cons p img images other.id ∙ ground (arith, e, k)) images h
          (has-passing p images hs),
    )

-- Whoever carries a referenced tag is left.
kept-any :
    (refs : List String) (gone : ContainerImage → Bool) (images : List ContainerImage)
    (ref : String)
    → All
        (λ (img : ContainerImage). (is_unused (to_set refs) img ≡ false) → gone img ≡ false)
        images
    → has refs ref ≡ true
    → any (λ (img : ContainerImage). has img.tags ref) (select (λ img. not (gone img)) images)
      ≡ any (λ (img : ContainerImage). has img.tags ref) images
kept-any refs gone [] ref safe h = refl
kept-any refs gone (img ∷ images) ref (safe, rest) h =
    let ih = kept-any refs gone images ref rest h in
    elim (Bool-cases (has img.tags ref)) [
      | inl tagged ↦ rw (safe (referenced-is_unused refs img ref h tagged), tagged) refl
      | inr untagged ↦ elim (Bool-cases (gone img)) [
        | inl away ↦ rw (away, untagged) ih
        | inr kept ↦ rw (kept, untagged) ih
      ]
    ]

All-has {ℓ} :
    (P : String → Type ℓ) (xs : List String) → ((v : String) → has xs v ≡ true → P v) → All P xs
All-has P [] f = tt
All-has P (x ∷ xs) f =
    (f x (ground (arith, eq_refl x)), All-has P xs (λ v h. f v (ground (arith, h))))

-- Whether the container's image counts as pulled is as before.
abbrev pub IsUndisturbed :
    (String → Bool) → List ContainerImage → List ContainerDefinition → ContainerDefinition → Type 0
IsUndisturbed succeeds images all_containers c =
    image_is_pulled (or_else c.image "") (left_images succeeds images all_containers)
    ≡ image_is_pulled (or_else c.image "") images

-- An image that no running container uses, or that is not taken away.
abbrev pub IsRetained :
    (String → Bool) → List ContainerImage → List ContainerDefinition → ContainerImage → Type 0
IsRetained succeeds images all_containers img =
    (img.containers ≡ 0)
    ⊎ ((has (cleanup_requests images all_containers) img.id && succeeds img.id) ≡ false)

module _ (succeeds : String → Bool) (images : List ContainerImage)
    (all_containers : List ContainerDefinition) (distinct : IsDistinct images) where
  abbrev refs : List String
  refs = image_refs all_containers

  -- An image that is in use is not asked for, so it is left.
  left-unused :
      All
        (λ (img : ContainerImage).
          (is_unused (to_set refs) img ≡ false)
          → (has (cleanup_requests images all_containers) img.id && succeeds img.id) ≡ false)
        images
  unfolding cleanup_requests unreferenced_images
  left-unused =
      All-map _ _ (λ img e used. rw (e, used) refl) images
        (has-passing (is_unused (to_set refs)) images distinct)

  -- A reference, trimmed, is pulled after the cleanup where it was before.
  undisturbed :
      (image : String)
      → ((trim image == "") ≡ false → has refs (trim image) ≡ true)
      → image_is_pulled image (left_images succeeds images all_containers)
        ≡ image_is_pulled image images
  unfolding image_is_pulled
  undisturbed image h = elim (Bool-cases (trim image == "")) [
    | inl blank ↦ rw blank refl
    | inr full ↦ rw full (kept-any refs _ images (trim image) left-unused (h full))
  ]

  IsUndisturbed-image :
      (image : Option String)
      → All (λ ref. has (image_refs all_containers) ref ≡ true) (image_ref image)
      → image_is_pulled (or_else image "") (left_images succeeds images all_containers)
        ≡ image_is_pulled (or_else image "") images
  unfolding trim
  IsUndisturbed-image none h = undisturbed "" (λ full. cc)
  IsUndisturbed-image (some image) h = undisturbed image (λ full.
      (subst
        (λ blank.
          All (λ ref. has (image_refs all_containers) ref ≡ true)
            (if blank then [] else trim image ∷ []))
        full h).0)

  IsUndisturbed-refs :
      (containers : List ContainerDefinition)
      → All (λ ref. has (image_refs all_containers) ref ≡ true) (image_refs containers)
      → All (IsUndisturbed succeeds images all_containers) containers
  IsUndisturbed-refs [] h = tt
  IsUndisturbed-refs (c ∷ containers) h =
      let (head, rest) = All-split _ (image_ref c.image) (image_refs containers) h in
      (IsUndisturbed-image c.image head, IsUndisturbed-refs containers rest)

  -- Whichever of the requested deletions succeed, where no two images have one id: exactly those
  -- configured containers have their image pulled after the cleanup that had it before, and every
  -- image that a running container uses is left.
  pub left_images-IsUndisturbed :
      All (IsUndisturbed succeeds images all_containers) all_containers
      × All (IsRetained succeeds images all_containers) images
  left_images-IsUndisturbed = (
    IsUndisturbed-refs all_containers (All-has _ (image_refs all_containers) (λ v h. h)),
    All-map _ _
        (λ img unless. elim (Bool-cases (eqb img.containers 0)) [
          | inl idle ↦ inl ((eqb_iff img.containers 0).0 idle)
          | inr busy ↦ inr (unless (ground arith))
        ])
        images left-unused,
  )
