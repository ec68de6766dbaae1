-- ===== src/Ha/VrrpForm/Authentication.antt =====
-- lib/haVrrpForm.ts: what saving a VRRP group does to its authentication.
use vyos_client.Base.{
  String, Bool, true, false, not, ◌&&◌, ◌≡◌, refl, sym, ap, ◌∙◌, List, [], ◌∷◌, ◌++◌, ◌==◌, ◌⊎◌,
  inl, inr, Bool-cases, arith, eq_iff, if◌then◌else◌,
}
use vyos_client.Base.Text.{ne_of_eq-false}
use vyos_client.Json.{Value, undefined, str, shown, as_string, to_text, child}
use vyos_client.Json.Paths.{get_path, get_path-append, apart, apart-append}
use vyos_client.Config.Op.{set_value, delete_node}
use vyos_client.Config.Router.{Router}
use vyos_client.Config.Router.Runs.{run_all}
use vyos_client.Json.{is_defined}
use vyos_client.Ha.VrrpForm.{authentication_ops}

undefined-get_path : (p : List String) → get_path undefined p ≡ undefined
unfolding child
undefined-get_path [] = refl
undefined-get_path (k ∷ p) = undefined-get_path p

has_password : (b d : Bool) → b ≡ true → (b ≡ false) ⊎ (d ≡ true) → d ≡ true
has_password b d h k = ground arith

typed_or_there : (b d : Bool) → (b && not d) ≡ false → (b ≡ false) ⊎ (d ≡ true)
typed_or_there b d h = ground arith

stays_defined :
    (typed : String) (v : Value)
    → ((typed == "") && not (is_defined v)) ≡ false
    → is_defined (if typed == "" then v else str typed) ≡ true
stays_defined typed v h = elim (Bool-cases (typed == "")) [
  | inl b ↦ rw b (ground arith)
  | inr t ↦ rw t refl
]

module _ (r : Router) (auth_path : List String) where
  open r use {State, tree, run, single_valued, run-set_value, run-delete_node, run-apart}

  abbrev pub password : State → Value
  password s = get_path (tree s) (auth_path ++ "password" ∷ [])

  abbrev pub auth_type : State → Value
  auth_type s = get_path (tree s) (auth_path ++ "type" ∷ [])

  -- The three nodes hold at most one value.
  abbrev pub AreSingle : Type 0
  AreSingle =
      (single_valued auth_path ≡ true)
      × (single_valued (auth_path ++ "password" ∷ []) ≡ true)
      × (single_valued (auth_path ++ "type" ∷ []) ≡ true)

  -- The state after the commands of a form that was opened on `s`.
  abbrev pub authenticated : State → String → String → State
  authenticated s typed_password new_type = run_all r s (
      authentication_ops auth_path (is_defined (password s)) (shown (auth_type s)) typed_password
        new_type)

  apart_type : apart (auth_path ++ "type" ∷ []) (auth_path ++ "password" ∷ []) ≡ true
  apart_type = apart-append auth_path ("type" ∷ []) ("password" ∷ []) refl

  apart_password : apart (auth_path ++ "password" ∷ []) (auth_path ++ "type" ∷ []) ≡ true
  apart_password = apart-append auth_path ("password" ∷ []) ("type" ∷ []) refl

  -- The type is set, and the password is as it was.
  set_type :
      (s : State) (new_type : String)
      → AreSingle
      → (new_type == "") ≡ false
      → (auth_type (run s (set_value (auth_path ++ "type" ∷ []) new_type)) ≡ str new_type)
        × (password (run s (set_value (auth_path ++ "type" ∷ []) new_type)) ≡ password s)
  set_type s new_type (_, _, t) h = (
    run-set_value s (auth_path ++ "type" ∷ []) new_type t (ne_of_eq-false new_type "" h),
    (run-apart s (set_value (auth_path ++ "type" ∷ []) new_type) (auth_path ++ "password" ∷ [])
        apart_type).0,
  )

  -- A type is chosen, and a password is typed or was there: both are there after the save, the password
  -- as it was typed or else as it was.
  pub authentication_ops-chosen :
      (s : State) (typed_password new_type : String)
      → AreSingle
      → (new_type == "") ≡ false
      → ((typed_password == "") ≡ false) ⊎ (is_defined (password s) ≡ true)
      → (shown (auth_type (authenticated s typed_password new_type)) ≡ new_type)
        × (password (authenticated s typed_password new_type)
            ≡ (if typed_password == "" then password s else str typed_password))
  unfolding authentication_ops run_all as_string to_text
  authentication_ops-chosen s typed_password new_type single h had =
      elim (Bool-cases (typed_password == "")) [
        | inr t ↦
            let s₁ = run s (set_value (auth_path ++ "password" ∷ []) typed_password) in
            let (e, kept) = set_type s₁ new_type single h in
            rw (h, t)
              (
                ap shown e,
                kept
                    ∙ run-set_value s (auth_path ++ "password" ∷ []) typed_password single.1
                        (ne_of_eq-false typed_password "" t),
              )
        | inl b ↦
            let there = has_password (typed_password == "") (is_defined (password s)) b had in
            elim (Bool-cases (new_type == shown (auth_type s))) [
              | inr d ↦
                  let (e, kept) = set_type s new_type single h in
                  rw (h, b, there, d) (ap shown e, kept)
              | inl same ↦
                  rw (h, b, there, same)
                    (sym ((eq_iff new_type (shown (auth_type s))).0 same), refl)
            ]
      ]

  -- A type stands only with a password.
  abbrev pub IsPaired : State → Type 0
  IsPaired s = (shown (auth_type s) ≡ "") ⊎ (is_defined (password s) ≡ true)

  delete_node-IsPaired : (s : State) → AreSingle → IsPaired (run s (delete_node auth_path))
  unfolding as_string
  delete_node-IsPaired s (a, _, _) =
      let t = tree (run s (delete_node auth_path)) in
      inl (
        ap shown (
          get_path-append t auth_path ("type" ∷ [])
          ∙ ap (λ v. get_path v ("type" ∷ [])) (run-delete_node s auth_path a).0
          ∙ undefined-get_path ("type" ∷ [])))

  -- No save leaves a type without a password, where none was before.
  pub authentication_ops-IsPaired :
      (s : State) (typed_password new_type : String)
      → AreSingle
      → IsPaired s
      → IsPaired (authenticated s typed_password new_type)
  unfolding authentication_ops run_all
  authentication_ops-IsPaired s typed_password new_type single paired =
      elim (Bool-cases (new_type == "")) [
        | inl z ↦ elim (Bool-cases (is_defined (password s) && not (shown (auth_type s) == ""))) [
          | inl d ↦ rw (z, d) (delete_node-IsPaired s single)
          | inr k ↦ rw (z, k) paired
        ]
        | inr h ↦ elim (Bool-cases ((typed_password == "") && not (is_defined (password s)))) [
          | inl n ↦
              let b : (typed_password == "") ≡ true = ground arith in
              let no : is_defined (password s) ≡ false = ground arith in rw (h, b, no) paired
          | inr n ↦
              let (_, kept) =
                authentication_ops-chosen s typed_password new_type single h
                  (typed_or_there (typed_password == "") (is_defined (password s)) n) in
              inr (ap is_defined kept ∙ stays_defined typed_password (password s) n)
        ]
      ]
