-- ===== src/Config/Diff/Later.antt =====
-- Commands that follow a form's diff and avoid its fields: the forms of lib/ that append a diff of
-- their own.
use vyos_client.Base.{String, true, List, ◌++◌, ◌≡◌, sym, ◌∙◌, All, All-zip, All-split, All-unmap}
use vyos_client.Json.{Value}
use vyos_client.Json.Paths.{
  get_path, has_path, apart, get_path-append, has_path-append_nonempty, is_nonempty,
}
use vyos_client.Config.Op.{ConfigOp}
use vyos_client.Config.Router.{Router}
use vyos_client.Config.Router.Runs.{run_all, run_all-apart}
use vyos_client.Config.Diff.{ScalarField, FlagField}
use vyos_client.Config.Diff.Effect.{Saved, paths}

module _ (r : Router) (base : List String) (s : r.State) (ops : List ConfigOp) where
  abbrev later : r.State
  later = run_all r s ops

  -- The commands keep away from a field's node.
  abbrev pub Avoids : List String → Type 0
  Avoids p = All (λ op. apart op.path (base ++ p) ≡ true) ops

  get_path-later :
      (p : List String)
      → Avoids p
      → get_path (get_path (r.tree later) base) p ≡ get_path (get_path (r.tree s) base) p
  get_path-later p h =
      sym (get_path-append (r.tree later) base p)
      ∙ (run_all-apart r s ops (base ++ p) h).0
      ∙ get_path-append (r.tree s) base p

  has_path-later :
      (p : List String)
      → is_nonempty p ≡ true
      → Avoids p
      → has_path (get_path (r.tree later) base) p ≡ has_path (get_path (r.tree s) base) p
  has_path-later p e h =
      sym (has_path-append_nonempty (r.tree later) base p e)
      ∙ (run_all-apart r s ops (base ++ p) h).1
      ∙ has_path-append_nonempty (r.tree s) base p e

  -- What the form saved stays saved.
  pub Saved-later {ℓ} :
      {V : Type ℓ} (scalar_fields : List (ScalarField V)) (flag_fields : List (FlagField V))
      (before values : V) (raw : Value)
      → All Avoids (paths scalar_fields flag_fields)
      → All (λ f. is_nonempty f.segments ≡ true) flag_fields
      → Saved scalar_fields flag_fields before values raw (get_path (r.tree s) base)
      → Saved scalar_fields flag_fields before values raw (get_path (r.tree later) base)
  Saved-later scalar_fields flag_fields before values raw avoid nonempty (scalars, flags) =
      let (a, b) = All-split Avoids _ _ avoid in
      (
        All-zip _ _ _ (λ f h e. get_path-later f.segments h ∙ e) scalar_fields
            (All-unmap Avoids (λ f. f.segments) scalar_fields a) scalars,
        All-zip _ _ _ (λ f h e. has_path-later f.segments h.0 h.1 ∙ e) flag_fields
            (All-zip _ _ (λ f. (is_nonempty f.segments ≡ true) × Avoids f.segments)
              (λ f e h. (e, h)) flag_fields nonempty
              (All-unmap Avoids (λ f. f.segments) flag_fields b))
            flags,
      )
