-- ===== src/Firewall/Reorder/Between.antt =====
-- The number that a moved rule gets.
use vyos_client.Base.{
  ℕ, ◌+◌, ◌-◌, ◌/◌, ◌≤◌, ◌<◌, Option, none, some, ◌≡◌, inl, inr, arith, leb, Bool-cases, refl,
}
use vyos_client.Firewall.Reorder.{ideal_number_between}

-- What a neighbour's number asks of the new one; a missing neighbour asks nothing.
abbrev pub Above : Option ℕ → ℕ → Type 0
Above none m = 1 ≤ m
Above (some prev) m = prev < m

abbrev pub Below : ℕ → Option ℕ → Type 0
Below m none = Unit {0}
Below m (some next) = m < next

abbrev pub known : Option ℕ → Option (Option ℕ)
known none = none
known (some n) = some (some n)

some-injective : (m n : ℕ) → some (some m) ≡ some (some n) → m ≡ n
some-injective m n h = cc

-- A number that is found lies strictly between the neighbours' numbers, and is positive.
pub ideal_number_between-between :
    (prev next : Option ℕ) (m : ℕ)
    → ideal_number_between (known prev) (known next) ≡ some (some m)
    → Above prev m × Below m next
unfolding ideal_number_between
ideal_number_between-between none none m h = cc
ideal_number_between-between none (some next) m h = elim (Bool-cases (leb next 1)) [
  | inl e ↦ let k : ◌≡◌ {A = Option (Option ℕ)} none (some (some m)) = rw e at h in cc
  | inr e ↦ let k = some-injective (next / 2) m (rw e at h) in ground arith
]
ideal_number_between-between (some prev) none m h =
    let k = some-injective (prev + 10) m h in (omega arith, tt)
ideal_number_between-between (some prev) (some next) m h = elim (Bool-cases (leb next (prev + 1))) [
  | inl e ↦ let k : ◌≡◌ {A = Option (Option ℕ)} none (some (some m)) = rw e at h in cc
  | inr e ↦ let k = some-injective (prev + (next - prev) / 2) m (rw e at h) in ground arith
]

-- Where no number is found although a positive number lies between the neighbours, there is no
-- neighbour at all.
pub ideal_number_between-none :
    (prev next : Option ℕ) (m : ℕ)
    → ideal_number_between (known prev) (known next) ≡ none
    → Above prev m
    → Below m next
    → (prev ≡ none) × (next ≡ none)
unfolding ideal_number_between
ideal_number_between-none none none m h a b = (refl, refl)
ideal_number_between-none none (some next) m h a b = absurd (ground arith)
ideal_number_between-none (some prev) none m h a b = cc
ideal_number_between-none (some prev) (some next) m h a b = absurd (ground arith)
