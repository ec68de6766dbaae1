-- ===== src/Dhcp/Ipv4/Ranges.antt =====
-- Addresses are below 2 ^ 32, and a range holds as many of them as its size says.
use vyos_client.Base.{
  ℕ, zero, suc, ◌+◌, ◌-◌, ◌*◌, ◌<◌, String, Bool, true, false, not, ◌≡◌, ap, subst, ◌↔◌, Option,
  none, some, List, [], ◌∷◌, inl, inr, arith, if◌then◌else◌, ltb, eqb, eqb_iff, length, Bool-cases,
  Option-cases,
}
use vyos_client.Base.Text.{trim}
use vyos_client.Base.Number.{to_number}
use vyos_client.Dhcp.Ipv4.{
  split_dots, is_octet_text, add_octet, octets, ipv4_to_int, range_size, in_range, ipv4_range_size,
  is_ipv4_in_range,
}

-- `b * 256 ^ k`
abbrev scaled : ℕ → ℕ → ℕ
scaled b zero = b
scaled b (suc k) = scaled (b * 256) k

some-≡ : (m n : ℕ) → some m ≡ some n → m ≡ n
some-≡ m n h = cc

octet-bound :
    (o : Option ℕ) (ok : Bool) (r m b : ℕ)
    → r < b
    → (if not ok then none else elim o [
      | none ↦ none
      | some octet ↦ if ltb 255 octet then none else some (r * 256 + octet)
    ])
      ≡ some m
    → m < b * 256
octet-bound o false r m b l h = cc
octet-bound none true r m b l h = cc
octet-bound (some octet) true r m b l h = ground arith

add_octet-bound : (r b m : ℕ) (p : String) → r < b → add_octet r p ≡ some m → m < b * 256
unfolding add_octet
add_octet-bound r b m p l e = octet-bound (to_number p) (is_octet_text p) r m b l e

octets-bound :
    (parts : List String) (r n b : ℕ)
    → r < b
    → octets r parts ≡ some n
    → n < scaled b (length parts)
unfolding octets
octets-bound [] r n b l h = subst (λ k. k < b) (some-≡ r n h) l
octets-bound (p ∷ parts) r n b l h = elim (Option-cases (add_octet r p)) [
  | inl e ↦ let k : ◌≡◌ {A = Option ℕ} none (some n) = rw (e, octets) at h in cc
  | inr (m, e) ↦
      octets-bound parts m n (b * 256) (add_octet-bound r b m p l e) (rw (e, octets) at h)
]

-- An address that is parsed is a number below 2 ^ 32.
pub ipv4_to_int-bound : (address : String) (n : ℕ) → ipv4_to_int address ≡ some n → n < 4294967296
unfolding ipv4_to_int
ipv4_to_int-bound address n h =
    let parts = split_dots (trim address) in
    elim (Bool-cases (eqb (length parts) 4)) [
      | inl e ↦
          subst (λ k. n < scaled 1 k) ((eqb_iff (length parts) 4).0 e)
            (octets-bound parts 0 n 1 (omega arith) (rw e at h))
      | inr e ↦ let k : ◌≡◌ {A = Option ℕ} none (some n) = rw e at h in cc
    ]

in_range-size :
    (s : ℕ) (a b c : Option ℕ)
    → b ≡ some s
    → (in_range a b c ≡ true) ↔ ((k : ℕ) × (a ≡ some (s + k)) × (k < range_size b c))
unfolding in_range range_size
in_range-size s none b c h = ((λ e. cc), λ (k, e, l). cc)
in_range-size s (some a) none c h = ((λ e. cc), λ (k, e, l). absurd (omega arith))
in_range-size s (some a) (some b) none h = ((λ e. cc), λ (k, e, l). absurd (omega arith))
in_range-size s (some a) (some b) (some c) h =
    let b_s = some-≡ b s h in
    (
      (λ e. (a - s, ap some (ground arith), ground arith)),
      (λ (k, e', l). let a_k = some-≡ a (s + k) e' in ground arith),
    )

-- An address lies in a range exactly when it is the range's first address and an offset below the
-- range's size.
pub is_ipv4_in_range-size :
    (address start stop : String) (s : ℕ)
    → ipv4_to_int start ≡ some s
    → (is_ipv4_in_range address start stop ≡ true)
      ↔ ((k : ℕ) × (ipv4_to_int address ≡ some (s + k)) × (k < ipv4_range_size start stop))
unfolding is_ipv4_in_range ipv4_range_size
is_ipv4_in_range-size address start stop s e =
    in_range-size s (ipv4_to_int address) (ipv4_to_int start) (ipv4_to_int stop) e
