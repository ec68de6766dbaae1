-- ===== src/Json/Paths.antt =====
-- Reading a JSON tree along a path: repeated `child`, and `isFlagPresent` at the last segment.
use vyos_client.Base.{
  String, Bool, true, false, List, [], ◌∷◌, ◌++◌, ◌≡◌, refl, ◌==◌, if◌then◌else◌, arith, eq_iff,
}
use vyos_client.Json.{Value, child, is_flag_present}

abbrev pub get_path : Value → List String → Value
get_path v [] = v
get_path v (k ∷ ks) = get_path (child v k) ks

-- Whether the node at a path is there.
abbrev pub has_path : Value → List String → Bool
has_path v [] = true
has_path v (k ∷ []) = is_flag_present v k
has_path v (k ∷ l ∷ ks) = has_path (child v k) (l ∷ ks)

pub get_path-append :
    (v : Value) (p q : List String) → get_path v (p ++ q) ≡ get_path (get_path v p) q
get_path-append v [] q = refl
get_path-append v (k ∷ p) q = get_path-append (child v k) p q

pub has_path-append :
    (v : Value) (p : List String) (k : String) (q : List String)
    → has_path v (p ++ k ∷ q) ≡ has_path (get_path v p) (k ∷ q)
has_path-append v [] k q = refl
has_path-append v (j ∷ []) k q = refl
has_path-append v (j ∷ i ∷ p) k q = has_path-append (child v j) (i ∷ p) k q

-- Neither path is a prefix of the other, so neither node lies in the other's subtree.
abbrev pub apart : List String → List String → Bool
apart [] q = false
apart (a ∷ p) [] = false
apart (a ∷ p) (b ∷ q) = if a == b then apart p q else true

pub apart-append : (b p q : List String) → apart p q ≡ true → apart (b ++ p) (b ++ q) ≡ true
apart-append [] p q h = h
apart-append (k ∷ b) p q h = ground (arith, eq_iff k k, apart-append b p q h)

pub apart_symm : (p q : List String) → apart p q ≡ true → apart q p ≡ true
apart_symm [] q h = ground arith
apart_symm (a ∷ p) [] h = ground arith
apart_symm (a ∷ p) (b ∷ q) h = ground (arith, eq_iff a b, eq_iff b a, apart_symm p q)

abbrev pub is_nonempty : List String → Bool
is_nonempty [] = false
is_nonempty (k ∷ p) = true

pub has_path-append_nonempty :
    (v : Value) (p q : List String)
    → is_nonempty q ≡ true
    → has_path v (p ++ q) ≡ has_path (get_path v p) q
has_path-append_nonempty v p [] h = cc
has_path-append_nonempty v p (k ∷ q) h = has_path-append v p k q
