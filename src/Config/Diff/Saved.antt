-- ===== src/Config/Diff/Saved.antt =====
-- What a form's diff does to the configuration: exactly the edited fields change, each to the
-- trimmed new value, and nothing outside the form's fields does.
use vyos_client.Base.{
  String, true, List, ◌++◌, ◌≡◌, sym, ap, ◌∙◌, All, All-append, All-zip, All-map, All-split,
  All-unmap, map, flat_map,
}
use vyos_client.Json.{Value}
use vyos_client.Json.Paths.{
  get_path, has_path, get_path-append, has_path-append_nonempty, is_nonempty, apart, apart-append,
}
use vyos_client.Config.Op.{ConfigOp}
use vyos_client.Config.Router.{Router}
use vyos_client.Config.Router.Runs.{run_all, run_all-append, run_all-apart}
use vyos_client.Config.Diff.{
  ScalarField, FlagField, scalar_round, flag_round, scalar_ops, flag_ops, diff_to_ops,
}
use vyos_client.Config.Diff.Separate.{
  apart_all, apart_all-below, separate, separate_left, separate_right, separate-cross_symm,
  separate-cross_swap, separate-nonempty,
}
use vyos_client.Config.Diff.Rounds.{loop-Avoids, loop-after}
use vyos_client.Config.Diff.Effect.{edited, toggled, Saved, paths, scalar_loop, flag_loop}

module _ (r : Router) (base : List String) where
  open r use {
    State, tree, run, single_valued, run-set_value, run-set_node, run-delete_node, run-apart,
  }

  module _ {ℓ} {V : Type ℓ} (scalar_fields : List (ScalarField V))
      (flag_fields : List (FlagField V)) where
    -- Every field's node holds at most one value.
    abbrev pub AreSingle : Type 0
    AreSingle = All (λ p. single_valued (base ++ p) ≡ true) (paths scalar_fields flag_fields)

    abbrev scalar_paths : List (List String)
    scalar_paths = map (λ f. f.segments) scalar_fields

    abbrev flag_paths : List (List String)
    flag_paths = map (λ f. f.segments) flag_fields

    abbrev scalar_rounds : V → V → List ConfigOp
    scalar_rounds before values =
        flat_map (scalar_round (λ segments. base ++ segments) before values) scalar_fields

    abbrev flag_rounds : V → V → List ConfigOp
    flag_rounds before values =
        flat_map (flag_round (λ segments. base ++ segments) before values) flag_fields

    abbrev pub below : State → Value
    below s = get_path (tree s) base

    module _ (s : State) (before values : V) (h : separate (paths scalar_fields flag_fields) ≡ true)
        (single : AreSingle) where
      abbrev after_scalars : State
      after_scalars = run_all r s (scalar_rounds before values)

      abbrev after_flags : State
      after_flags = run_all r after_scalars (flag_rounds before values)

      -- The flags' loop keeps what the scalars' loop wrote.
      scalar-kept :
          (f : ScalarField V)
          → All (λ g. apart g.segments f.segments ≡ true) flag_fields
          → get_path (tree after_scalars) (base ++ f.segments)
            ≡ edited (f.get before) (f.get values) (get_path (tree s) (base ++ f.segments))
          → get_path (below after_flags) f.segments
            ≡ edited (f.get before) (f.get values) (get_path (below s) f.segments)
      scalar-kept f others e =
          sym (get_path-append (tree after_flags) base f.segments)
          ∙ (run_all-apart r after_scalars (flag_rounds before values) (base ++ f.segments) (
              loop-Avoids (flag_loop r base before values) (base ++ f.segments) flag_fields (
                All-map (λ g. apart g.segments f.segments ≡ true)
                  (λ g. apart (base ++ g.segments) (base ++ f.segments) ≡ true)
                  (λ g a. apart-append base g.segments f.segments a) flag_fields others))).0
          ∙ e
          ∙ ap (edited (f.get before) (f.get values)) (get_path-append (tree s) base f.segments)

      scalars-Saved :
          All
            (λ f.
              get_path (below after_flags) f.segments
              ≡ edited (f.get before) (f.get values) (get_path (below s) f.segments))
            scalar_fields
      scalars-Saved =
          All-zip (λ f. All (λ g. apart g.segments f.segments ≡ true) flag_fields)
            (λ f.
              get_path (tree after_scalars) (base ++ f.segments)
              ≡ edited (f.get before) (f.get values) (get_path (tree s) (base ++ f.segments)))
            (λ f.
              get_path (below after_flags) f.segments
              ≡ edited (f.get before) (f.get values) (get_path (below s) f.segments))
            scalar-kept scalar_fields
            (separate-cross_symm (λ f. f.segments) (λ g. g.segments) scalar_fields flag_fields h)
            (loop-after (scalar_loop r base before values) s scalar_fields
              (separate_left scalar_paths flag_paths h)
              (All-unmap (λ p. single_valued (base ++ p) ≡ true) (λ f. f.segments) scalar_fields
                (All-split (λ p. single_valued (base ++ p) ≡ true) scalar_paths flag_paths
                  single).0))

      -- The scalars' loop had left the flags alone.
      flag-kept :
          (f : FlagField V)
          → All (λ g. apart g.segments f.segments ≡ true) scalar_fields
            × (is_nonempty f.segments ≡ true)
          → has_path (tree after_flags) (base ++ f.segments)
            ≡ toggled
                (f.get before)
                (f.get values)
                (has_path (tree after_scalars) (base ++ f.segments))
          → has_path (below after_flags) f.segments
            ≡ toggled (f.get before) (f.get values) (has_path (below s) f.segments)
      flag-kept f (others, some_segment) e =
          sym (has_path-append_nonempty (tree after_flags) base f.segments some_segment)
          ∙ e
          ∙ ap (toggled (f.get before) (f.get values)) (
              (run_all-apart r s (scalar_rounds before values) (base ++ f.segments) (
                loop-Avoids (scalar_loop r base before values) (base ++ f.segments) scalar_fields (
                  All-map (λ g. apart g.segments f.segments ≡ true)
                    (λ g. apart (base ++ g.segments) (base ++ f.segments) ≡ true)
                    (λ g a. apart-append base g.segments f.segments a) scalar_fields others))).1
              ∙ has_path-append_nonempty (tree s) base f.segments some_segment)

      flags-Saved :
          All
            (λ f.
              has_path (below after_flags) f.segments
              ≡ toggled (f.get before) (f.get values) (has_path (below s) f.segments))
            flag_fields
      flags-Saved =
          All-zip
            (λ f.
              All (λ g. apart g.segments f.segments ≡ true) scalar_fields
              × (is_nonempty f.segments ≡ true))
            (λ f.
              has_path (tree after_flags) (base ++ f.segments)
              ≡ toggled (f.get before) (f.get values)
                  (has_path (tree after_scalars) (base ++ f.segments)))
            (λ f.
              has_path (below after_flags) f.segments
              ≡ toggled (f.get before) (f.get values) (has_path (below s) f.segments))
            flag-kept flag_fields
            (All-zip
              (λ f. All (λ (g : ScalarField V). apart g.segments f.segments ≡ true) scalar_fields)
              (λ f. is_nonempty f.segments ≡ true)
              (λ f.
                All (λ (g : ScalarField V). apart g.segments f.segments ≡ true) scalar_fields
                × (is_nonempty f.segments ≡ true))
              (λ f a b. (a, b)) flag_fields
              (separate-cross_swap (λ g. g.segments) (λ f. f.segments) scalar_fields flag_fields h)
              (separate-nonempty (λ f. f.segments) flag_fields
                (separate_right scalar_paths flag_paths h)))
            (loop-after (flag_loop r base before values) after_scalars flag_fields
              (separate_right scalar_paths flag_paths h)
              (All-unmap (λ p. single_valued (base ++ p) ≡ true) (λ f. f.segments) flag_fields
                (All-split (λ p. single_valued (base ++ p) ≡ true) scalar_paths flag_paths
                  single).1))

      -- The save changes exactly the edited fields.
      pub diff_to_ops-Saved : Saved scalar_fields flag_fields before values (below s) (
          get_path
            (tree (run_all r s (diff_to_ops base scalar_fields flag_fields before values)))
            base)
      unfolding diff_to_ops scalar_ops flag_ops
      diff_to_ops-Saved =
          rw (run_all-append r s (scalar_rounds before values) (flag_rounds before values))
            (scalars-Saved, flags-Saved)

    -- Whatever lies apart from all of the form's fields is left alone.
    pub diff_to_ops-apart :
        (s : State) (before values : V) (q : List String)
        → All (λ p. apart (base ++ p) q ≡ true) (paths scalar_fields flag_fields)
        → (get_path
              (tree (run_all r s (diff_to_ops base scalar_fields flag_fields before values)))
              q
            ≡ get_path (tree s) q)
          × (has_path
                (tree (run_all r s (diff_to_ops base scalar_fields flag_fields before values)))
                q
              ≡ has_path (tree s) q)
    unfolding diff_to_ops scalar_ops flag_ops
    diff_to_ops-apart s before values q h =
        let (a, b) = All-split (λ p. apart (base ++ p) q ≡ true) scalar_paths flag_paths h in
        run_all-apart r s _ q (
          All-append (λ op. apart op.path q ≡ true) _ _
            (loop-Avoids (scalar_loop r base before values) q scalar_fields
              (All-unmap (λ p. apart (base ++ p) q ≡ true) (λ f. f.segments) scalar_fields a))
            (loop-Avoids (flag_loop r base before values) q flag_fields
              (All-unmap (λ p. apart (base ++ p) q ≡ true) (λ f. f.segments) flag_fields b)))

    -- So is whatever lies below the form's node, apart from its fields.
    pub diff_to_ops-untouched :
        (s : State) (before values : V) (q : List String)
        → apart_all q (paths scalar_fields flag_fields) ≡ true
        → get_path
            (below (run_all r s (diff_to_ops base scalar_fields flag_fields before values)))
            q
          ≡ get_path (below s) q
    diff_to_ops-untouched s before values q h =
        let t = run_all r s (diff_to_ops base scalar_fields flag_fields before values) in
        sym (get_path-append (tree t) base q)
        ∙ (diff_to_ops-apart s before values (base ++ q)
            (apart_all-below base q (paths scalar_fields flag_fields) h)).0
        ∙ get_path-append (tree s) base q
