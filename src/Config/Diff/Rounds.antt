-- ===== src/Config/Diff/Rounds.antt =====
-- A loop over fields that each change the node at their own path, seen through one observation of
-- the tree. The two loops of a diff are instances.
use vyos_client.Base.{
  String, true, List, [], ◌∷◌, ◌++◌, ◌≡◌, ap, ◌∙◌, All, All-append, All-zip, All-map, map, flat_map,
}
use vyos_client.Json.{Value}
use vyos_client.Json.Paths.{apart, apart-append, apart_symm}
use vyos_client.Config.Op.{ConfigOp}
use vyos_client.Config.Router.{Router}
use vyos_client.Config.Router.Runs.{run_all, run_all-append}
use vyos_client.Config.Diff.Separate.{separate, separate-tail, separate-head}

abbrev pub Avoids : List String → List ConfigOp → Type 0
Avoids q ops = All (λ op. apart op.path q ≡ true) ops

-- What is at hand of a loop: the path of each field, the commands of its round, and the effect of
-- a round on the observation.
pub record Loop {ℓ} (r : Router) (base : List String) (F : Type ℓ) (B : Type 0) : Type ℓ where
  pub seg : F → List String
  pub round : F → List ConfigOp
  pub look : Value → List String → B
  pub after : F → B → B
  pub look-avoids :
      (s : r.State) (ops : List ConfigOp) (q : List String)
      → Avoids q ops
      → look (r.tree (run_all r s ops)) q ≡ look (r.tree s) q
  pub round-after :
      (s : r.State) (f : F)
      → r.single_valued (base ++ seg f) ≡ true
      → look (r.tree (run_all r s (round f))) (base ++ seg f)
        ≡ after f (look (r.tree s) (base ++ seg f))
  pub round-avoids : (f : F) (q : List String) → apart (base ++ seg f) q ≡ true → Avoids q (round f)

module _ {ℓ} {r : Router} {base : List String} {F : Type ℓ} {B : Type 0} (l : Loop r base F B) where
  open l use {seg, round, look, after, look-avoids, round-after, round-avoids}
  open r use {State, tree, single_valued}

  pub loop-Avoids :
      (q : List String) (fields : List F)
      → All (λ f. apart (base ++ seg f) q ≡ true) fields
      → Avoids q (flat_map round fields)
  loop-Avoids q [] h = tt
  loop-Avoids q (f ∷ fields) (h, hs) =
      All-append (λ op. apart op.path q ≡ true) _ _ (round-avoids f q h) (loop-Avoids q fields hs)

  -- A loop over separate fields has each field's effect at its own path.
  pub loop-after :
      (s : State) (fields : List F)
      → separate (map seg fields) ≡ true
      → All (λ f. single_valued (base ++ seg f) ≡ true) fields
      → All
          (λ f.
            look (tree (run_all r s (flat_map round fields))) (base ++ seg f)
            ≡ after f (look (tree s) (base ++ seg f)))
          fields
  loop-after s [] h k = tt
  loop-after s (f ∷ fields) h (k, ks) =
      let apart_here = separate-head seg (seg f) fields h in
      let t = run_all r s (round f) in
      let others = loop-Avoids (base ++ seg f) fields (
        All-map (λ g. apart (seg f) (seg g) ≡ true)
          (λ g. apart (base ++ seg g) (base ++ seg f) ≡ true)
          (λ g a. apart-append base (seg g) (seg f) (apart_symm (seg f) (seg g) a)) fields
          apart_here) in
      let later = loop-after t fields (separate-tail (seg f) (map seg fields) h) ks in
      let split = run_all-append r s (round f) (flat_map round fields) in
      (
        ap (λ t'. look (tree t') (base ++ seg f)) split
            ∙ look-avoids t (flat_map round fields) (base ++ seg f) others
            ∙ round-after s f k,
        All-zip (λ g. apart (seg f) (seg g) ≡ true)
            (λ g.
              look (tree (run_all r t (flat_map round fields))) (base ++ seg g)
              ≡ after g (look (tree t) (base ++ seg g)))
            (λ g.
              look (tree (run_all r s (round f ++ flat_map round fields))) (base ++ seg g)
              ≡ after g (look (tree s) (base ++ seg g)))
            (λ g a e.
              ap (λ t'. look (tree t') (base ++ seg g)) split
              ∙ e
              ∙ ap (after g) (
                  look-avoids s (round f) (base ++ seg g)
                    (round-avoids f (base ++ seg g) (apart-append base (seg f) (seg g) a))))
            fields apart_here later,
      )
