-- ===== src/Config/MultiValue.antt =====
-- lib/configOps.ts: the diff of a leaf that holds several values. A `Set` of texts is the list of
-- its members in the order in which they were first added.
use vyos_client.Base.{
  All, All-append, String, Bool, not, ◌&&◌, ◌||◌, List, [], ◌∷◌, ◌++◌, map, ◌==◌, any, select, ◌≡◌,
  refl, ap, ◌∙◌, eq_iff, arith, Bool-cases, inl, inr,
}
use vyos_client.Config.Op.{ConfigOp, set_value, delete_value}

abbrev pub has : List String → String → Bool
has xs v = any (λ w. w == v) xs

-- `new Set(values)`
unfoldable pub to_set : List String → List String
to_set [] = []
to_set (v ∷ values) = v ∷ select (λ w. not (w == v)) (to_set values)

unfoldable pub multi_value_diff_ops : List String → List String → List String → List ConfigOp
unfolding to_set
multi_value_diff_ops path old_values new_values =
    let old_set = to_set old_values in
    let new_set = to_set new_values in
    map (set_value path) (select (λ v. not (has old_set v)) new_set)
    ++ map (delete_value path) (select (λ v. not (has new_set v)) old_set)

pub All-made {ℓ} :
    {A : Type ℓ} (P : ConfigOp → Type 0) (make : A → ConfigOp)
    → ((a : A) → P (make a))
    → (xs : List A) → All P (map make xs)
All-made P make f [] = tt
All-made P make f (x ∷ xs) = (f x, All-made P make f xs)

-- Every command of the diff names the leaf.
pub multi_value_diff_ops-path :
    (P : List String → Type 0) (path old_values new_values : List String)
    → P path
    → All (λ op. P op.path) (multi_value_diff_ops path old_values new_values)
unfolding multi_value_diff_ops
multi_value_diff_ops-path P path old_values new_values h =
    let sets = select (λ v. not (has (to_set old_values) v)) (to_set new_values) in
    let deletes = select (λ v. not (has (to_set new_values) v)) (to_set old_values) in
    All-append (λ (op : ConfigOp). P op.path) (map (set_value path) sets)
      (map (delete_value path) deletes) (All-made (λ op. P op.path) (set_value path) (λ v. h) sets)
      (All-made (λ op. P op.path) (delete_value path) (λ v. h) deletes)

has-select :
    (p : String → Bool) (xs : List String) (v : String) → has (select p xs) v ≡ (p v && has xs v)
has-select p [] v = ground arith
has-select p (x ∷ xs) v =
    let ih = has-select p xs v in
    let (to, _) = eq_iff x v in
    elim (Bool-cases (x == v)) [
      | inl h ↦ elim (Bool-cases (p v)) [
        | inl k ↦ rw (ap p (to h), k, h) refl
        | inr k ↦ rw (ap p (to h), k, ih, k) refl
      ]
      | inr h ↦ elim (Bool-cases (p x)) [ inl k ↦ rw (k, h) ih | inr k ↦ rw (k, h) ih ]
    ]

pub has-to_set : (xs : List String) (v : String) → has (to_set xs) v ≡ has xs v
unfolding to_set
has-to_set [] v = refl
has-to_set (x ∷ xs) v =
    ground
      (arith, has-select (λ w. not (w == x)) (to_set xs) v, has-to_set xs v, eq_iff v x, eq_iff x v)

-- What is relied on of a leaf with several values: a `set` adds its value to those that it holds,
-- a `delete` takes its value away.
pub record MultiLeaf (path : List String) : Type 1 where
  pub State : Type 0
  pub holds : State → String → Bool
  pub run : State → ConfigOp → State
  pub holds-set :
      (s : State) (v w : String) → holds (run s (set_value path v)) w ≡ (v == w || holds s w)
  pub holds-delete :
      (s : State) (v w : String)
      → holds (run s (delete_value path v)) w ≡ (not (v == w) && holds s w)

module _ (path : List String) (m : MultiLeaf path) where
  abbrev pub run_all : m.State → List ConfigOp → m.State
  run_all s [] = s
  run_all s (op ∷ ops) = run_all (m.run s op) ops

  run_all-append :
      (s : m.State) (xs ys : List ConfigOp) → run_all s (xs ++ ys) ≡ run_all (run_all s xs) ys
  run_all-append s [] ys = refl
  run_all-append s (x ∷ xs) ys = run_all-append (m.run s x) xs ys

  holds-sets :
      (vs : List String) (s : m.State) (w : String)
      → m.holds (run_all s (map (set_value path) vs)) w ≡ (has vs w || m.holds s w)
  holds-sets [] s w = refl
  holds-sets (v ∷ vs) s w =
      rw (holds-sets vs (m.run s (set_value path v)) w, m.holds-set s v w) (ground arith)

  holds-deletes :
      (vs : List String) (s : m.State) (w : String)
      → m.holds (run_all s (map (delete_value path) vs)) w ≡ (not (has vs w) && m.holds s w)
  holds-deletes [] s w = refl
  holds-deletes (v ∷ vs) s w =
      rw (holds-deletes vs (m.run s (delete_value path v)) w, m.holds-delete s v w) (ground arith)

  -- A leaf that holds exactly the old values holds exactly the new ones once the commands have run.
  pub multi_value_diff_ops-holds :
      (s : m.State) (old_values new_values : List String)
      → ((w : String) → m.holds s w ≡ has old_values w)
      → (w : String)
      → m.holds (run_all s (multi_value_diff_ops path old_values new_values)) w ≡ has new_values w
  unfolding multi_value_diff_ops
  multi_value_diff_ops-holds s olds news h w =
      let sets = select (λ v. not (has (to_set olds) v)) (to_set news) in
      let deletes = select (λ v. not (has (to_set news) v)) (to_set olds) in
      ap (λ t. m.holds t w)
        (run_all-append s (map (set_value path) sets) (map (delete_value path) deletes))
      ∙ holds-deletes deletes (run_all s (map (set_value path) sets)) w
      ∙ rw
          (
            holds-sets sets s w,
            has-select (λ v. not (has (to_set news) v)) (to_set olds) w,
            has-select (λ v. not (has (to_set olds) v)) (to_set news) w,
            has-to_set olds w,
            has-to_set news w,
            h w,
          )
          (ground arith)
