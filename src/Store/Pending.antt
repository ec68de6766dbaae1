-- ===== src/Store/Pending.antt =====
-- store/pendingChanges.ts: the queue of edits that are not committed. `crypto.randomUUID()` is the
-- argument `id` of `add`.
pub mod Latest
pub mod Cancel
pub mod Enable
pub mod Removal
pub mod Persist
use vyos_client.Base.{
  String, Bool, true, false, not, ◌&&◌, ◌||◌, Option, none, some, List, [], ◌∷◌, ◌++◌, ◌==◌,
  if◌then◌else◌, any, select, or_else,
}
use vyos_client.Base.Text.{join}
use vyos_client.Config.Op.{ConfigOp, ConfigOpKind, set, delete, comment}
use vyos_client.Masking.{is_masked_path}

pub record PendingChange : Type 0 where
  pub id : String
  pub op : ConfigOp
  pub label : String

-- `Omit<PendingChange, 'id'>`
pub record NewChange : Type 0 where
  pub op : ConfigOp
  pub label : String

abbrev pub same_kind : ConfigOpKind → ConfigOpKind → Bool
same_kind set set = true
same_kind delete delete = true
same_kind comment comment = true
same_kind _ _ = false

abbrev pub same_value : Option String → Option String → Bool
same_value none none = true
same_value (some v) (some w) = v == w
same_value _ _ = false

-- `p.join(' ') === q.join(' ')`
unfoldable pub same_path : List String → List String → Bool
unfolding join
same_path p q = join " " p == join " " q

-- The loop from the end of `latestPendingOp`.
unfoldable pub latest_pending_op : List PendingChange → List String → Option ConfigOp
unfolding same_path
latest_pending_op [] path = none
latest_pending_op (c ∷ changes) path = elim (latest_pending_op changes path) [
  | some op ↦ some op
  | none ↦ if same_path c.op.path path then some c.op else none
]

abbrev pub has_kind : ConfigOpKind → Option ConfigOp → Bool
has_kind kind none = false
has_kind kind (some op) = same_kind op.op kind

unfoldable pub has_pending_set : List PendingChange → List String → Bool
unfolding latest_pending_op
has_pending_set changes path = has_kind set (latest_pending_op changes path)

unfoldable pub has_pending_delete : List PendingChange → List String → Bool
unfolding latest_pending_op
has_pending_delete changes path = has_kind delete (latest_pending_op changes path)

-- A configuration with an `enabled` flag, and `{ ...parsed, enabled }`.
pub record Enabled (T : Type 0) : Type 0 where
  pub enabled : T → Bool
  pub with_enabled : T → Bool → T

unfoldable pub with_pending_enable :
    {T : Type 0} → Enabled T → T → List String → List PendingChange → T
unfolding has_pending_set has_pending_delete
with_pending_enable e parsed path changes =
    if has_pending_delete changes path
    then if e.enabled parsed then e.with_enabled parsed false else parsed
    else if not (e.enabled parsed) && has_pending_set changes path
    then e.with_enabled parsed true
    else parsed

-- `state.changes.at(-1)`
abbrev pub last_change : List PendingChange → Option PendingChange
last_change [] = none
last_change (c ∷ []) = some c
last_change (c ∷ d ∷ changes) = last_change (d ∷ changes)

-- The op equals the previous entry's: a double click.
unfoldable pub repeats : Option PendingChange → ConfigOp → Bool
unfolding same_path
repeats none op = false
repeats (some prev) op =
    same_kind prev.op.op op.op
    && same_value prev.op.value op.value
    && same_path prev.op.path op.path

abbrev pub is_valueless : ConfigOpKind → ConfigOp → Bool
is_valueless kind op = same_kind op.op kind && same_value op.value none

-- `changes.filter((_, j) => j !== i)` at the last entry for the path
unfoldable pub drop_latest : List PendingChange → List String → List PendingChange
unfolding latest_pending_op same_path
drop_latest [] path = []
drop_latest (c ∷ changes) path = elim (latest_pending_op changes path) [
  | some op ↦ c ∷ drop_latest changes path
  | none ↦ if same_path c.op.path path then changes else c ∷ changes
]

-- A valueless `set` whose path was last deleted without a value takes the delete back.
unfoldable pub cancels : List PendingChange → ConfigOp → Bool
unfolding latest_pending_op
cancels changes op = is_valueless set op && elim (latest_pending_op changes op.path) [
  | none ↦ false
  | some latest ↦ is_valueless delete latest
]

unfoldable pub add : String → NewChange → List PendingChange → List PendingChange
unfolding repeats cancels drop_latest
add id change changes =
    if repeats (last_change changes) change.op
    then changes
    else if cancels changes change.op
    then drop_latest changes change.op.path
    else changes ++ record { id = id; op = change.op; label = change.label } ∷ []

unfoldable pub remove : String → List PendingChange → List PendingChange
remove id changes = select (λ c. not (c.id == id)) changes

unfoldable pub remove_many : List String → List PendingChange → List PendingChange
remove_many ids changes = select (λ c. not (any (λ id. id == c.id) ids)) changes

unfoldable pub clear : List PendingChange → List PendingChange
clear changes = []

-- `!c.op.value`: no value, or the empty one
abbrev pub has_no_text : Option String → Bool
has_no_text none = true
has_no_text (some v) = v == ""

-- What reaches the browser's storage.
unfoldable pub partialize : List PendingChange → List PendingChange
unfolding is_masked_path
partialize changes = select (λ c. has_no_text c.op.value || not (is_masked_path c.op.path)) changes
