-- ===== src/Config/Diff/Form.antt =====
-- A form over a node of the configuration: how the node is parsed, what the form shows of it, its
-- tables of fields, and what it shows after a save.
use vyos_client.Base.{
  String, true, Option, none, some, List, ◌++◌, ◌≡◌, ◌⊎◌, inl, inr, sym, subst, All,
}
use vyos_client.Json.{Value, undefined}
use vyos_client.Json.Paths.{get_path}
use vyos_client.Config.Op.{ConfigOp}
use vyos_client.Config.Router.{Router}
use vyos_client.Config.Router.Runs.{run_all}
use vyos_client.Config.Diff.{ScalarField, FlagField, diff_to_ops}
use vyos_client.Config.Diff.Effect.{Saved, paths}
use vyos_client.Config.Diff.Saved.{diff_to_ops-Saved}
use vyos_client.Config.Diff.Separate.{separate}

pub record Form (T V : Type 0) : Type 1 where
  pub parse : Value → T
  pub to_values : T → V
  pub blank : V
  pub scalar_fields : List (ScalarField V)
  pub flag_fields : List (FlagField V)
  pub saved : V → V → V
  -- What the form is relied on to hold where it is saved.
  pub IsAccepted : V → Type 0
  -- No field's node lies below another's.
  pub is_separate : separate (paths scalar_fields flag_fields) ≡ true
  -- A blank form is what would be shown of a missing node.
  pub blank-parse : blank ≡ to_values (parse undefined)
  pub saved-parse :
      (raw raw' : Value) (before values : V)
      → before ≡ to_values (parse raw)
      → IsAccepted values
      → Saved scalar_fields flag_fields before values raw raw'
      → to_values (parse raw') ≡ saved before values

module _ {T V : Type 0} (f : Form T V) where
  -- `before ? toFormValues(before) : blankFormValues()`
  abbrev pub opened_values : Option T → V
  opened_values none = f.blank
  opened_values (some before) = f.to_values before

  -- A form is opened on the node as it was parsed, or on nothing where the node is missing.
  abbrev pub IsOpened : Value → Option T → Type 0
  IsOpened raw before = (before ≡ some (f.parse raw)) ⊎ ((before ≡ none) × (raw ≡ undefined))

  pub opened_values-parse :
      (raw : Value) (before : Option T)
      → IsOpened raw before
      → opened_values before ≡ f.to_values (f.parse raw)
  opened_values-parse raw before (inl e) = rw e
  opened_values-parse raw before (inr (e, absent)) = rw (e, absent) f.blank-parse

  abbrev pub HasSingleFields : Router → List String → Type 0
  HasSingleFields r base =
      All (λ p. r.single_valued (base ++ p) ≡ true) (paths f.scalar_fields f.flag_fields)

  -- Commands that equal the form's diff over a node save the form there.
  pub form-round_trip :
      (r : Router) (s : r.State) (base : List String) (before : Option T) (values : V)
      (ops : List ConfigOp)
      → ops ≡ diff_to_ops base f.scalar_fields f.flag_fields (opened_values before) values
      → IsOpened (get_path (r.tree s) base) before
      → HasSingleFields r base
      → f.IsAccepted values
      → f.to_values (f.parse (get_path (r.tree (run_all r s ops)) base))
        ≡ f.saved (opened_values before) values
  form-round_trip r s base before values ops e opened single accepted =
      subst
        (λ ops'.
          f.to_values (f.parse (get_path (r.tree (run_all r s ops')) base))
          ≡ f.saved (opened_values before) values)
        (sym e)
        (f.saved-parse (get_path (r.tree s) base) _ (opened_values before) values
          (opened_values-parse (get_path (r.tree s) base) before opened) accepted
          (diff_to_ops-Saved r base f.scalar_fields f.flag_fields s (opened_values before) values
            f.is_separate single))
