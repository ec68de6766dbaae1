-- ===== src/Config/Diff/Separate.antt =====
-- Tables of fields whose paths do not overlap.
use vyos_client.Base.{
  String, Bool, true, false, List, [], ◌∷◌, ◌++◌, ◌≡◌, refl, ◌&&◌, arith, All, All-map, All-swap,
  map,
}
use vyos_client.Json.Paths.{apart, apart-append, apart_symm, is_nonempty}

-- A path is apart from each of a list.
abbrev pub apart_all : List String → List (List String) → Bool
apart_all p [] = true
apart_all p (q ∷ qs) = apart p q && apart_all p qs

-- No path of the list is empty, and no two overlap.
abbrev pub separate : List (List String) → Bool
separate [] = true
separate ([] ∷ ps) = false
separate ((k ∷ p) ∷ ps) = apart_all (k ∷ p) ps && separate ps

pub separate-tail :
    (p : List String) (ps : List (List String)) → separate (p ∷ ps) ≡ true → separate ps ≡ true
separate-tail [] ps h = cc
separate-tail (k ∷ p) ps h = ground arith

separate-apart_all :
    (p : List String) (ps : List (List String)) → separate (p ∷ ps) ≡ true → apart_all p ps ≡ true
separate-apart_all [] ps h = cc
separate-apart_all (k ∷ p) ps h = ground arith

module _ {ℓ} {F : Type ℓ} (seg : F → List String) where
  apart_all→All :
      (p : List String) (fields : List F)
      → apart_all p (map seg fields) ≡ true
      → All (λ f. apart p (seg f) ≡ true) fields
  apart_all→All p [] h = tt
  apart_all→All p (f ∷ fields) h = (ground arith, apart_all→All p fields (ground arith))

  pub separate-head :
      (p : List String) (fields : List F)
      → separate (p ∷ map seg fields) ≡ true
      → All (λ f. apart p (seg f) ≡ true) fields
  separate-head p fields h = apart_all→All p fields (separate-apart_all p (map seg fields) h)

apart_all-append :
    (p : List String) (ps qs : List (List String))
    → apart_all p (ps ++ qs) ≡ (apart_all p ps && apart_all p qs)
apart_all-append p [] qs = refl
apart_all-append p (q ∷ ps) qs = ground (arith, apart_all-append p ps qs)

-- Both halves of a table are separate.
pub separate_left : (ps qs : List (List String)) → separate (ps ++ qs) ≡ true → separate ps ≡ true
separate_left [] qs h = refl
separate_left ([] ∷ ps) qs h = cc
separate_left ((k ∷ p) ∷ ps) qs h =
    ground (arith, apart_all-append (k ∷ p) ps qs, separate_left ps qs)

pub separate_right : (ps qs : List (List String)) → separate (ps ++ qs) ≡ true → separate qs ≡ true
separate_right [] qs h = h
separate_right (p ∷ ps) qs h = separate_right ps qs (separate-tail p (ps ++ qs) h)

module _ {ℓ κ} {F : Type ℓ} {G : Type κ} (seg : F → List String) (seg' : G → List String) where
  -- Each path of one half is apart from each of the other.
  pub separate-cross :
      (fields : List F) (others : List G)
      → separate (map seg fields ++ map seg' others) ≡ true
      → All (λ f. All (λ g. apart (seg f) (seg' g) ≡ true) others) fields
  separate-cross [] others h = tt
  separate-cross (f ∷ fields) others h = (
    apart_all→All seg' (seg f) others (
        let here = separate-apart_all (seg f) (map seg fields ++ map seg' others) h in
        ground (arith, apart_all-append (seg f) (map seg fields) (map seg' others))),
    separate-cross fields others (separate-tail (seg f) (map seg fields ++ map seg' others) h),
  )

  pub separate-cross_symm :
      (fields : List F) (others : List G)
      → separate (map seg fields ++ map seg' others) ≡ true
      → All (λ f. All (λ g. apart (seg' g) (seg f) ≡ true) others) fields
  separate-cross_symm fields others h =
      All-map (λ f. All (λ g. apart (seg f) (seg' g) ≡ true) others)
        (λ f. All (λ g. apart (seg' g) (seg f) ≡ true) others)
        (λ f a.
          All-map (λ g. apart (seg f) (seg' g) ≡ true) (λ g. apart (seg' g) (seg f) ≡ true)
            (λ g. apart_symm (seg f) (seg' g)) others a)
        fields (separate-cross fields others h)

  pub separate-cross_swap :
      (fields : List F) (others : List G)
      → separate (map seg fields ++ map seg' others) ≡ true
      → All (λ g. All (λ f. apart (seg f) (seg' g) ≡ true) fields) others
  separate-cross_swap fields others h =
      All-swap (λ f g. apart (seg f) (seg' g) ≡ true) fields others (separate-cross fields others h)

pub separate-nonempty {ℓ} :
    {F : Type ℓ} (seg : F → List String) (fields : List F)
    → separate (map seg fields) ≡ true
    → All (λ f. is_nonempty (seg f) ≡ true) fields
separate-nonempty seg [] h = tt
separate-nonempty seg (f ∷ fields) h = (
  here (seg f) (map seg fields) h,
  separate-nonempty seg fields (separate-tail (seg f) (map seg fields) h),
)
  where
    here :
        (p : List String) (ps : List (List String))
        → separate (p ∷ ps) ≡ true
        → is_nonempty p ≡ true
    here [] ps h = cc
    here (k ∷ p) ps h = refl

pub apart_all-below :
    (base q : List String) (ps : List (List String))
    → apart_all q ps ≡ true
    → All (λ p. apart (base ++ p) (base ++ q) ≡ true) ps
apart_all-below base q [] h = tt
apart_all-below base q (p ∷ ps) h = (
  apart-append base p q (apart_symm q p (ground arith)),
  apart_all-below base q ps (ground arith),
)
