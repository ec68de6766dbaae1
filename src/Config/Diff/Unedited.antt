-- ===== src/Config/Diff/Unedited.antt =====
-- Fields that a form leaves as they were: the loops of lib/ send nothing for them, so nothing is
-- relied on of their nodes.
use vyos_client.Base.{
  String, List, [], ◌∷◌, ◌++◌, ◌≡◌, refl, ap, ◌∙◌, eq_refl, flat_map, All, All-append, All-split,
}
use vyos_client.Json.{Value}
use vyos_client.Json.Paths.{get_path}
use vyos_client.Config.Diff.{
  ScalarField, FlagField, diff_to_ops, scalar_ops, flag_ops, scalar_field_ops, scalar_round,
}
use vyos_client.Config.Diff.Effect.{Saved, edited}

module _ {ℓ} {V : Type ℓ} (before values : V) where
  -- The form shows what it was opened with.
  abbrev pub IsUnedited : List (ScalarField V) → Type 0
  IsUnedited fields = All (λ (f : ScalarField V). f.get before ≡ f.get values) fields

  unedited-round :
      (path : List String → List String) (f : ScalarField V)
      → f.get before ≡ f.get values
      → scalar_round path before values f ≡ []
  unfolding scalar_field_ops
  unedited-round path f e = rw (e, eq_refl (f.get values)) refl

  unedited-rounds :
      (path : List String → List String) (first middle last : List (ScalarField V))
      → IsUnedited middle
      → flat_map (scalar_round path before values) (first ++ (middle ++ last))
        ≡ flat_map (scalar_round path before values) (first ++ last)
  unedited-rounds path [] [] last h = refl
  unedited-rounds path [] (f ∷ middle) last (e, h) =
      ap (λ ops. ops ++ flat_map (scalar_round path before values) (middle ++ last))
        (unedited-round path f e)
      ∙ unedited-rounds path [] middle last h
  unedited-rounds path (f ∷ first) middle last h =
      ap (λ ops. scalar_round path before values f ++ ops)
        (unedited-rounds path first middle last h)

  pub diff_to_ops-unedited :
      (base : List String) (first middle last : List (ScalarField V)) (flags : List (FlagField V))
      → IsUnedited middle
      → diff_to_ops base (first ++ (middle ++ last)) flags before values
        ≡ diff_to_ops base (first ++ last) flags before values
  unfolding diff_to_ops scalar_ops
  diff_to_ops-unedited base first middle last flags h =
      ap (λ ops. ops ++ flag_ops (λ p. base ++ p) flags before values)
        (unedited-rounds (λ p. base ++ p) first middle last h)

  module _ (raw raw' : Value) where
    abbrev IsEdited : ScalarField V → Type 0
    IsEdited f =
        get_path raw' f.segments ≡ edited (f.get before) (f.get values) (get_path raw f.segments)

    unedited-IsEdited :
        (fields : List (ScalarField V))
        → IsUnedited fields
        → All (λ (f : ScalarField V). get_path raw' f.segments ≡ get_path raw f.segments) fields
        → All IsEdited fields
    unedited-IsEdited [] h k = tt
    unedited-IsEdited (f ∷ fields) (e, h) (same, k) =
        (rw (e, eq_refl (f.get values)) same, unedited-IsEdited fields h k)

    -- Nodes that are left alone are saved, too.
    pub Saved-unedited :
        (first middle last : List (ScalarField V)) (flags : List (FlagField V))
        → IsUnedited middle
        → All (λ (f : ScalarField V). get_path raw' f.segments ≡ get_path raw f.segments) middle
        → Saved (first ++ last) flags before values raw raw'
        → Saved (first ++ (middle ++ last)) flags before values raw raw'
    Saved-unedited first middle last flags h same (scalars, flagged) =
        let (front, back) = All-split IsEdited first last scalars in
        (
          All-append IsEdited first (middle ++ last) front
              (All-append IsEdited middle last (unedited-IsEdited middle h same) back),
          flagged,
        )
