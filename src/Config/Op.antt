-- ===== src/Config/Op.antt =====
-- lib/vyosApi.ts: `ConfigOp`, one command of a commit.
use vyos_client.Base.{String, Option, none, some, List}

pub data ConfigOpKind : Type 0 where
  set delete comment : ConfigOpKind

pub record ConfigOp : Type 0 where
  pub op : ConfigOpKind
  pub path : List String
  pub value : Option String

-- The three shapes that the code writes: `{ op: 'set', path, value }`, `{ op: 'set', path }` and
-- `{ op: 'delete', path }`.
abbrev pub set_value : List String → String → ConfigOp
set_value p v = record { op = set; path = p; value = some v }

abbrev pub set_node : List String → ConfigOp
set_node p = record { op = set; path = p; value = none }

abbrev pub delete_node : List String → ConfigOp
delete_node p = record { op = delete; path = p; value = none }

abbrev pub delete_value : List String → String → ConfigOp
delete_value p v = record { op = delete; path = p; value = some v }
