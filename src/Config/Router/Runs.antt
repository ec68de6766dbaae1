-- ===== src/Config/Router/Runs.antt =====
-- Running a list of commands, one after the other.
use vyos_client.Base.{String, true, List, [], ◌∷◌, ◌++◌, ◌≡◌, refl, ◌∙◌, All}
use vyos_client.Json.Paths.{get_path, has_path, apart}
use vyos_client.Config.Op.{ConfigOp}
use vyos_client.Config.Router.{Router}

module _ (r : Router) where
  open r use {State, tree, run, run-apart}

  unfoldable pub run_all : State → List ConfigOp → State
  run_all s [] = s
  run_all s (op ∷ ops) = run_all (run s op) ops

  pub run_all-append :
      (s : State) (xs ys : List ConfigOp) → run_all s (xs ++ ys) ≡ run_all (run_all s xs) ys
  unfolding run_all
  run_all-append s [] ys = refl
  run_all-append s (x ∷ xs) ys = run_all-append (run s x) xs ys

  -- Commands whose paths are all apart from `q` leave `q` alone.
  pub run_all-apart :
      (s : State) (ops : List ConfigOp) (q : List String)
      → All (λ op. apart op.path q ≡ true) ops
      → (get_path (tree (run_all s ops)) q ≡ get_path (tree s) q)
        × (has_path (tree (run_all s ops)) q ≡ has_path (tree s) q)
  unfolding run_all
  run_all-apart s [] q h = (refl, refl)
  run_all-apart s (op ∷ ops) q (h, hs) =
      let (e, f) = run_all-apart (run s op) ops q hs in
      let (e', f') = run-apart s op q h in (e ∙ e', f ∙ f')
