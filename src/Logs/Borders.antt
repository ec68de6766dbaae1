-- ===== src/Logs/Borders.antt =====
-- Borders of the beginnings of a sequence: what the failure function of lib/mergeLogLines.ts holds.
use vyos_client.Base.{ℕ, suc, ◌+◌, ◌-◌, ◌≤◌, ◌<◌, ◌≡◌, sym, ap, ◌∙◌, arith, ◌⊎◌, inl, inr}

pub lt_or_eq : (t k : ℕ) → t < suc k → (t < k) ⊎ (t ≡ k)
lt_or_eq t k h = ground arith

module _ {ℓ} {A : Type ℓ} (s : ℕ → A) where
  -- The first `k` of the first `i` entries are also the last `k` of them, and not all.
  abbrev pub Border : ℕ → ℕ → Type ℓ
  Border i k = (k < i) × ((t : ℕ) → t < k → s t ≡ s (i - k + t))

  abbrev pub Longest : ℕ → ℕ → Type ℓ
  Longest i k = Border i k × ((m : ℕ) → Border i m → m ≤ k)

  pub Border-zero : (i : ℕ) → 0 < i → Border i 0
  Border-zero i h = (h, λ t u. absurd (omega arith))

  -- A border of a border is a border.
  pub Border-trans : (i j k : ℕ) → Border i j → Border j k → Border i k
  Border-trans i j k (h, e) (l, f) =
      (omega arith, λ t u. f t u ∙ e (j - k + t) (omega arith) ∙ ap s (omega arith))

  -- Of two borders the shorter is one of the longer.
  pub Border-shorter : (i j k : ℕ) → Border i j → Border i k → k < j → Border j k
  Border-shorter i j k (h, e) (l, f) m =
      (m, λ t u. f t u ∙ ap s (omega arith) ∙ sym (e (j - k + t) (omega arith)))

  -- A border grows by one where the next entries agree, and only there.
  pub Border-suc : (i k : ℕ) → Border i k → s k ≡ s i → Border (suc i) (suc k)
  Border-suc i k (h, e) g = (
    omega arith,
    λ t u. elim (lt_or_eq t k (omega arith)) [
      | inl l ↦ e t l ∙ ap s (omega arith)
      | inr q ↦ ap s q ∙ g ∙ ap s (omega arith)
    ],
  )

  pub Border-pred : (i k : ℕ) → Border (suc i) (suc k) → Border i k × (s k ≡ s i)
  Border-pred i k (h, e) = (
    (omega arith, λ t u. e t (omega arith) ∙ ap s (omega arith)),
    e k (omega arith) ∙ ap s (omega arith),
  )
