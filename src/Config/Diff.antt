-- ===== src/Config/Diff.antt =====
-- lib/dhcpConfigForm.ts: `diffToOps`, the diff of a form against the values it was opened with. The
-- other forms write the same two loops out, each over its own tables of fields and its own path
-- builder, so the loops take the path builder as an argument.
pub mod Separate
pub mod Rounds
pub mod Effect
pub mod Saved
pub mod Shown
pub mod Form
pub mod Later
pub mod Unedited
use vyos_client.Base.{String, Bool, List, [], ◌∷◌, ◌++◌, ◌==◌, if◌then◌else◌, not, flat_map}
use vyos_client.Base.Text.{trim}
use vyos_client.Config.Op.{ConfigOp, set_value, set_node, delete_node}

pub record ScalarField {ℓ} (V : Type ℓ) : Type ℓ where
  pub get : V → String
  pub segments : List String

pub record FlagField {ℓ} (V : Type ℓ) : Type ℓ where
  pub get : V → Bool
  pub segments : List String

-- One round of the loop over scalar fields.
unfoldable pub scalar_field_ops : List String → String → String → List ConfigOp
scalar_field_ops path old_value new_value =
    if old_value == new_value
    then []
    else if trim new_value == ""
    then delete_node path ∷ []
    else set_value path (trim new_value) ∷ []

-- `newValue ? { op: 'set', path } : { op: 'delete', path }`
abbrev pub toggle_op : List String → Bool → ConfigOp
toggle_op path on = if on then set_node path else delete_node path

abbrev pub same_flag : Bool → Bool → Bool
same_flag old_value new_value = if old_value then new_value else not new_value

-- One round of the loop over flags.
unfoldable pub flag_field_ops : List String → Bool → Bool → List ConfigOp
flag_field_ops path old_value new_value =
    if same_flag old_value new_value then [] else toggle_op path new_value ∷ []

module _ {ℓ} {V : Type ℓ} (path : List String → List String) (before values : V) where
  abbrev pub scalar_round : ScalarField V → List ConfigOp
  scalar_round f = scalar_field_ops (path f.segments) (f.get before) (f.get values)

  abbrev pub flag_round : FlagField V → List ConfigOp
  flag_round f = flag_field_ops (path f.segments) (f.get before) (f.get values)

module _ {ℓ} {V : Type ℓ} (path : List String → List String) where
  -- `for (const field of SCALAR_FIELDS)`
  unfoldable pub scalar_ops : List (ScalarField V) → V → V → List ConfigOp
  scalar_ops fields before values = flat_map (scalar_round path before values) fields

  -- `for (const field of FLAG_FIELDS)`
  unfoldable pub flag_ops : List (FlagField V) → V → V → List ConfigOp
  flag_ops fields before values = flat_map (flag_round path before values) fields

module _ {ℓ} {V : Type ℓ} where
  unfoldable pub diff_to_ops :
      List String → List (ScalarField V) → List (FlagField V) → V → V → List ConfigOp
  diff_to_ops base_path scalar_fields flag_fields before values =
      scalar_ops (λ segments. base_path ++ segments) scalar_fields before values
      ++ flag_ops (λ segments. base_path ++ segments) flag_fields before values
