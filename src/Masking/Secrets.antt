-- ===== src/Masking/Secrets.antt =====
-- lib/masking.ts and shared/sensitive-fields.json: the paths of secrets, described by the lists of names.
use vyos_client.Base.{
  String, Bool, true, false, ◌≡◌, refl, ap, List, [], ◌∷◌, ◌++◌, some, any, ◌==◌, eq_iff, arith,
  if◌then◌else◌, Bool-cases, inl, inr,
}
use vyos_client.Base.Text.{includes}
use vyos_client.Masking.{
  normalize, sensitive_leaf_names, sensitive_key_patterns, is_sensitive_leaf, is_sensitive_path,
  is_sensitive_identifier, is_masked_path, last, second_last,
}

-- The paths of secrets, by the lists of names.
pub data SecretPath : List String → Type 0 where
  -- the leaf is one of the names, in any case, with `_` or `-`
  named_leaf :
      (above : List String) (leaf name : String)
      → any (λ n. n == name) sensitive_leaf_names ≡ true
      → normalize name ≡ normalize leaf
      → SecretPath (above ++ leaf ∷ [])
  -- the leaf `value` of a variable whose name has one of the patterns in it
  value_leaf :
      (above : List String) (name pattern : String)
      → any (λ p. p == pattern) sensitive_key_patterns ≡ true
      → includes (normalize name) (normalize pattern) ≡ true
      → SecretPath (above ++ name ∷ "value" ∷ [])

any-at :
    (p : String → Bool) (xs : List String) (v : String)
    → any (λ x. x == v) xs ≡ true
    → p v ≡ true
    → any p xs ≡ true
any-at p [] v h k = cc
any-at p (x ∷ xs) v h k =
    let (to, _) = eq_iff x v in
    elim (Bool-cases (x == v)) [
      | inl same ↦ rw (ap p (to same), k) refl
      | inr other ↦ ground (arith, any-at p xs v (ground arith) k)
    ]

last-snoc : (above : List String) (leaf : String) → last (above ++ leaf ∷ []) ≡ some leaf
last-snoc [] leaf = refl
last-snoc (k ∷ []) leaf = refl
last-snoc (k ∷ l ∷ above) leaf = last-snoc (l ∷ above) leaf

last-pair : (above : List String) (k leaf : String) → last (above ++ k ∷ leaf ∷ []) ≡ some leaf
last-pair [] k leaf = refl
last-pair (j ∷ []) k leaf = refl
last-pair (j ∷ l ∷ above) k leaf = last-pair (l ∷ above) k leaf

second_last-pair :
    (above : List String) (k leaf : String) → second_last (above ++ k ∷ leaf ∷ []) ≡ some k
second_last-pair [] k leaf = refl
second_last-pair (j ∷ []) k leaf = refl
second_last-pair (j ∷ l ∷ []) k leaf = refl
second_last-pair (j ∷ l ∷ m ∷ above) k leaf = second_last-pair (l ∷ m ∷ above) k leaf

either : (b : Bool) → (if b then true else true) ≡ true
either true = refl
either false = refl

pub SecretPath-is_masked_path : (path : List String) → SecretPath path → is_masked_path path ≡ true
unfolding is_masked_path is_sensitive_path is_sensitive_leaf is_sensitive_identifier
SecretPath-is_masked_path _ (SecretPath.named_leaf above leaf name known same) =
    let found =
      any-at (λ n. normalize n == normalize leaf) sensitive_leaf_names name known
        ((eq_iff (normalize name) (normalize leaf)).1 same) in
    let sensitive : is_sensitive_path (above ++ leaf ∷ []) ≡ true =
      rw (last-snoc above leaf, is_sensitive_path) found in
    rw sensitive refl
SecretPath-is_masked_path _ (SecretPath.value_leaf above name pattern known within) =
    let found =
      any-at (λ p. includes (normalize name) (normalize p)) sensitive_key_patterns pattern known
        within in
    rw (last-pair above name "value", second_last-pair above name "value", found)
      (either (is_sensitive_path (above ++ name ∷ "value" ∷ [])))
