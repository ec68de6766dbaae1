-- ===== src/Dhcp/Leases/Keys.antt =====
-- lib/dhcpLeases.ts: the keys of the index tell their three parts apart.
use Prim.Native.Char.{Char, code}
use Prim.Native.String.{[], ◌∷◌, ◌++◌}
use Prim.Native.String.append
use vyos_client.Base.{
  String, Bool, true, false, ◌&&◌, ◌≡◌, refl, sym, ap, ◌∙◌, eqb, eq_iff, arith, ◌==◌,
}
use vyos_client.Base.Text.{join}
use vyos_client.Dhcp.Leases.{static_mapping_index_key}

-- The text has no NUL: no name and no prefix of a configuration has one.
abbrev pub HasNoNul : String → Type 0
HasNoNul [] = Unit
HasNoNul (c ∷ s) = (eqb (code c) 0 ≡ false) × HasNoNul s

cons-head : {c d : Char} {s t : String} → c ∷ s ≡ d ∷ t → c ≡ d
cons-head e = cc

cons-tail : {c d : Char} {s t : String} → c ∷ s ≡ d ∷ t → s ≡ t
cons-tail e = cc

nul_apart : (c : Char) → "\0" ≡ c → eqb (code c) 0 ≡ false → ⊥
nul_apart c e h = let z = ap (λ d. eqb (code d) 0) e ∙ h in let k : true ≡ false = z in cc

bool_ext : (x y : Bool) → (x ≡ true → y ≡ true) → (y ≡ true → x ≡ true) → x ≡ y
bool_ext true y f g = sym (f refl)
bool_ext false true f g = g refl
bool_ext false false f g = refl

all_same :
    (p q c d m n : String) → (p ≡ q) × (c ≡ d) × (m ≡ n) → ((p == q) && (c == d) && (m == n)) ≡ true
all_same p q c d m n (e, f, g) = ground (arith, eq_iff p q, eq_iff c d, eq_iff m n)

same_all :
    (p q c d m n : String) → ((p == q) && (c == d) && (m == n)) ≡ true → (p ≡ q) × (c ≡ d) × (m ≡ n)
same_all p q c d m n h = ground (arith, eq_iff p q, eq_iff c d, eq_iff m n)

-- The first NUL separates.
split_nul :
    (p q x y : String)
    → HasNoNul p
    → HasNoNul q
    → p ++ ("\0" ∷ x) ≡ q ++ ("\0" ∷ y)
    → (p ≡ q) × (x ≡ y)
split_nul [] [] x y h k e =
    (refl, cons-tail (sym (append.nil ("\0" ∷ x)) ∙ e ∙ append.nil ("\0" ∷ y)))
split_nul [] (d ∷ q) x y h (k, l) e =
    let same = cons-head (sym (append.nil ("\0" ∷ x)) ∙ e ∙ append.cons d q ("\0" ∷ y)) in
    absurd (nul_apart d same k)
split_nul (c ∷ p) [] x y (h, l) k e =
    let same = cons-head (sym (append.cons c p ("\0" ∷ x)) ∙ e ∙ append.nil ("\0" ∷ y)) in
    absurd (nul_apart c (sym same) h)
split_nul (c ∷ p) (d ∷ q) x y (h, hs) (k, ks) e =
    let cut = sym (append.cons c p ("\0" ∷ x)) ∙ e ∙ append.cons d q ("\0" ∷ y) in
    let same = cons-head cut in
    let rest = split_nul p q x y hs ks (cons-tail cut) in let more = rest.0 in (cc, rest.1)

separator : (x : String) → "\0" ++ x ≡ "\0" ∷ x
separator x = append.cons "\0" [] x ∙ ap (◌∷◌ "\0") (append.nil x)

split_key :
    (p q x y : String)
    → HasNoNul p
    → HasNoNul q
    → p ++ ("\0" ++ x) ≡ q ++ ("\0" ++ y)
    → (p ≡ q) × (x ≡ y)
split_key p q x y h k e =
    split_nul p q x y h k
      (ap (λ t. p ++ t) (sym (separator x)) ∙ e ∙ ap (λ t. q ++ t) (separator y))

-- Whether the keys are equal, part by part.
pub key-test :
    (p q c d m n : String)
    → HasNoNul p
    → HasNoNul q
    → HasNoNul c
    → HasNoNul d
    → (static_mapping_index_key p c m == static_mapping_index_key q d n)
      ≡ ((p == q) && (c == d) && (m == n))
unfolding static_mapping_index_key join
key-test p q c d m n hp hq hc hd =
    let same : static_mapping_index_key p c m ≡ static_mapping_index_key q d n
        → (p ≡ q) × (c ≡ d) × (m ≡ n) =
      λ e.
        let (a, e') = split_key p q (c ++ ("\0" ++ m)) (d ++ ("\0" ++ n)) hp hq e in
        let (b, f) = split_key c d m n hc hd e' in (a, b, f) in
    let key = static_mapping_index_key in
    bool_ext (key p c m == key q d n) ((p == q) && (c == d) && (m == n))
      (λ h. all_same p q c d m n (same ((eq_iff (key p c m) (key q d n)).0 h)))
      (λ h. let (a, b, f) = same_all p q c d m n h in (eq_iff (key p c m) (key q d n)).1 cc)
