-- ===== src/Config/Router.antt =====
-- What the client relies on of a router: how one command changes the configuration tree. The
-- router is not part of the client, so it is an argument of every theorem that needs it;
-- `Router.Fake` is one, the fake server of backend/internal/testutil.
pub mod Runs
pub mod Fake
use vyos_client.Base.{String, Bool, true, false, List, ◌≡◌, ◌≢◌}
use vyos_client.Json.{Value, undefined, str}
use vyos_client.Json.Paths.{get_path, has_path, apart}
use vyos_client.Config.Op.{ConfigOp, set_value, set_node, delete_node}

pub record Router : Type 1 where
  pub State : Type 0
  pub tree : State → Value
  pub run : State → ConfigOp → State
  -- The schema: the paths at which at most one value is held.
  pub single_valued : List String → Bool
  pub run-set_value :
      (s : State) (p : List String) (v : String)
      → single_valued p ≡ true
      → v ≢ ""
      → get_path (tree (run s (set_value p v))) p ≡ str v
  pub run-set_node :
      (s : State) (p : List String)
      → single_valued p ≡ true
      → has_path (tree (run s (set_node p))) p ≡ true
  pub run-delete_node :
      (s : State) (p : List String)
      → single_valued p ≡ true
      → (get_path (tree (run s (delete_node p))) p ≡ undefined)
        × (has_path (tree (run s (delete_node p))) p ≡ false)
  -- A command changes nothing outside the node that it names.
  pub run-apart :
      (s : State) (op : ConfigOp) (q : List String)
      → apart op.path q ≡ true
      → (get_path (tree (run s op)) q ≡ get_path (tree s) q)
        × (has_path (tree (run s op)) q ≡ has_path (tree s) q)
