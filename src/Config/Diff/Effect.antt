-- ===== src/Config/Diff/Effect.antt =====
-- What one field's command does to the configuration, and the two loops as such steps.
use vyos_client.Base.{
  String, Bool, true, false, List, ◌++◌, ◌≡◌, refl, ◌==◌, if◌then◌else◌, All, map, inl, inr,
  Bool-cases,
}
use vyos_client.Base.Text.{trim, ne_of_eq-false}
use vyos_client.Json.{Value, undefined, str}
use vyos_client.Json.Paths.{get_path, has_path, apart}
use vyos_client.Config.Router.{Router}
use vyos_client.Config.Router.Runs.{run_all, run_all-apart}
use vyos_client.Config.Diff.{
  ScalarField, FlagField, scalar_field_ops, flag_field_ops, scalar_round, flag_round, same_flag,
}
use vyos_client.Config.Diff.Rounds.{Loop}

-- What an edit of a leaf leaves there: an unchanged field keeps what was there, a blank one is
-- unset, any other holds the trimmed text.
abbrev pub edited : String → String → Value → Value
edited old_value new_value v =
    if old_value == new_value
    then v
    else if trim new_value == ""
    then undefined
    else str (trim new_value)

abbrev pub toggled : Bool → Bool → Bool → Bool
toggled old_value new_value present = if same_flag old_value new_value then present else new_value

-- A form's tables over the tree below its node: what was there, and what is there after the save.
module _ {ℓ} {V : Type ℓ} (scalar_fields : List (ScalarField V))
    (flag_fields : List (FlagField V)) where
  abbrev pub Saved : V → V → Value → Value → Type 0
  Saved before values raw raw' =
      All
        (λ f.
          get_path raw' f.segments ≡ edited (f.get before) (f.get values) (get_path raw f.segments))
        scalar_fields
      × All
          (λ f.
            has_path raw' f.segments
            ≡ toggled (f.get before) (f.get values) (has_path raw f.segments))
          flag_fields

  abbrev pub paths : List (List String)
  paths = map (λ f. f.segments) scalar_fields ++ map (λ f. f.segments) flag_fields

module _ (r : Router) (base : List String) where
  open r use {
    State, tree, run, single_valued, run-set_value, run-set_node, run-delete_node, run-apart,
  }

  pub scalar_field_ops-edited :
      (s : State) (p : List String) (old_value new_value : String)
      → single_valued p ≡ true
      → get_path (tree (run_all r s (scalar_field_ops p old_value new_value))) p
        ≡ edited old_value new_value (get_path (tree s) p)
  unfolding scalar_field_ops run_all
  scalar_field_ops-edited s p old_value new_value h = elim (Bool-cases (old_value == new_value)) [
    | inl same ↦ rw same
    | inr other ↦ rw other (elim (Bool-cases (trim new_value == "")) [
      | inl blank ↦ rw blank ((run-delete_node s p h).0)
      | inr text ↦
          rw text (run-set_value s p (trim new_value) h (ne_of_eq-false (trim new_value) "" text))
    ])
  ]

  pub flag_field_ops-toggled :
      (s : State) (p : List String) (old_value new_value : Bool)
      → single_valued p ≡ true
      → has_path (tree (run_all r s (flag_field_ops p old_value new_value))) p
        ≡ toggled old_value new_value (has_path (tree s) p)
  unfolding flag_field_ops run_all
  flag_field_ops-toggled s p true true h = refl
  flag_field_ops-toggled s p true false h = (run-delete_node s p h).1
  flag_field_ops-toggled s p false true h = run-set_node s p h
  flag_field_ops-toggled s p false false h = refl

  -- Both kinds of round name one path only.
  pub scalar_field_ops-apart :
      (p q : List String) (old_value new_value : String)
      → apart p q ≡ true
      → All (λ op. apart op.path q ≡ true) (scalar_field_ops p old_value new_value)
  unfolding scalar_field_ops
  scalar_field_ops-apart p q old_value new_value h = elim (Bool-cases (old_value == new_value)) [
    | inl same ↦ rw same tt
    | inr other ↦ rw other (elim (Bool-cases (trim new_value == "")) [
      | inl blank ↦ rw blank (h, tt)
      | inr text ↦ rw text (h, tt)
    ])
  ]

  pub flag_field_ops-apart :
      (p q : List String) (old_value new_value : Bool)
      → apart p q ≡ true
      → All (λ op. apart op.path q ≡ true) (flag_field_ops p old_value new_value)
  unfolding flag_field_ops
  flag_field_ops-apart p q true true h = tt
  flag_field_ops-apart p q true false h = (h, tt)
  flag_field_ops-apart p q false true h = (h, tt)
  flag_field_ops-apart p q false false h = tt

  module _ {ℓ} {V : Type ℓ} (before values : V) where
    abbrev pub scalar_loop : Loop r base (ScalarField V) Value
    scalar_loop = record {
      seg = λ f. f.segments;
      round = scalar_round (λ segments. base ++ segments) before values;
      look = get_path;
      after = λ f. edited (f.get before) (f.get values);
      look-avoids = λ s ops q h. (run_all-apart r s ops q h).0;
      round-after =
          λ s f h. scalar_field_ops-edited s (base ++ f.segments) (f.get before) (f.get values) h;
      round-avoids =
          λ f q h. scalar_field_ops-apart (base ++ f.segments) q (f.get before) (f.get values) h;
    }

    abbrev pub flag_loop : Loop r base (FlagField V) Bool
    flag_loop = record {
      seg = λ f. f.segments;
      round = flag_round (λ segments. base ++ segments) before values;
      look = has_path;
      after = λ f. toggled (f.get before) (f.get values);
      look-avoids = λ s ops q h. (run_all-apart r s ops q h).1;
      round-after =
          λ s f h. flag_field_ops-toggled s (base ++ f.segments) (f.get before) (f.get values) h;
      round-avoids =
          λ f q h. flag_field_ops-apart (base ++ f.segments) q (f.get before) (f.get values) h;
    }
