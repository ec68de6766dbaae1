-- ===== src/Masking.antt =====
-- lib/masking.ts and shared/sensitive-fields.json: which values are secrets.
pub mod Secrets
use vyos_client.Base.{
  String, Bool, true, false, ◌≡◌, refl, Option, none, some, List, [], ◌∷◌, any, ◌==◌, if◌then◌else◌,
}
use vyos_client.Base.Text.{to_lower, replace_char, includes}

abbrev pub mask_placeholder : String
mask_placeholder = "••••••••"

-- `name.toLowerCase().replaceAll('_', '-')`
unfoldable pub normalize : String → String
unfolding to_lower replace_char
normalize name = replace_char "_" "-" (to_lower name)

abbrev pub sensitive_leaf_names : List String
sensitive_leaf_names =
    "password" ∷ "plaintext-password" ∷ "encrypted-password" ∷ "passphrase" ∷ "pre-shared-key"
    ∷ "preshared-key" ∷ "pre-shared-secret" ∷ "private-key" ∷ "secret" ∷ "secret-key" ∷ "api-key"
    ∷ "community" ∷ "credential" ∷ "credentials" ∷ "pin" ∷ "token" ∷ "key" ∷ "md5-key" ∷ "psk"
    ∷ "cak" ∷ "md5" ∷ "client-secret" ∷ "cisco-authentication" ∷ []

abbrev pub sensitive_key_patterns : List String
sensitive_key_patterns =
    "pass" ∷ "secret" ∷ "token" ∷ "key" ∷ "credential" ∷ "pwd" ∷ "private" ∷ "auth" ∷ []

unfoldable pub is_sensitive_leaf : String → Bool
unfolding normalize
is_sensitive_leaf leaf_name =
    any (λ name. normalize name == normalize leaf_name) sensitive_leaf_names

-- `path[path.length - 1]`, if there is one
abbrev pub last : List String → Option String
last [] = none
last (k ∷ []) = some k
last (k ∷ l ∷ p) = last (l ∷ p)

-- `path[path.length - 2]`, if there is one
abbrev pub second_last : List String → Option String
second_last [] = none
second_last (k ∷ []) = none
second_last (k ∷ l ∷ []) = some k
second_last (k ∷ l ∷ m ∷ p) = second_last (l ∷ m ∷ p)

unfoldable pub is_sensitive_path : List String → Bool
unfolding is_sensitive_leaf
is_sensitive_path path = elim (last path) [ none ↦ false | some leaf ↦ is_sensitive_leaf leaf ]

unfoldable pub is_sensitive_identifier : String → Bool
unfolding normalize includes
is_sensitive_identifier name =
    any (λ pattern. includes (normalize name) (normalize pattern)) sensitive_key_patterns

-- `path[path.length - 1] === 'value'`
abbrev ends_in_value : Option String → Bool
ends_in_value none = false
ends_in_value (some k) = k == "value"

-- The generic `value` leaf, judged by the identifier above it.
abbrev sensitive_above : Option String → Bool
sensitive_above none = false
sensitive_above (some name) = is_sensitive_identifier name

unfoldable pub is_masked_path : List String → Bool
unfolding is_sensitive_path is_sensitive_identifier
is_masked_path path =
    if is_sensitive_path path
    then true
    else if ends_in_value (last path)
    then sensitive_above (second_last path)
    else false

unfoldable pub mask_value : List String → String → String
unfolding is_masked_path
mask_value path value = if is_masked_path path then mask_placeholder else value

masks_environment : mask_value ("environment" ∷ "DB_PASSWORD" ∷ "value" ∷ []) "x" ≡ mask_placeholder
unfolding mask_value
masks_environment = refl
