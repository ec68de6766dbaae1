-- ===== src/Base/Number.antt =====
-- `String(n)` and `Number(s)` for the numbers that the configuration holds: natural numbers in
-- decimal. Other spellings that JavaScript reads as numbers (signs, fractions, exponents, hexadecimal,
-- surrounding spaces) are `none` here, as is what it reads as NaN.
use Prim.Native.Char.{Char, code}
use Prim.Native.String.{String, [], ◌∷◌}
use vyos_client.Base.{
  ℕ, zero, suc, ◌+◌, ◌-◌, ◌*◌, ◌/◌, ◌%◌, ◌<◌, ◌≡◌, refl, ◌∙◌, Bool, true, ◌&&◌, Option, none, some,
  arith, leb, ltb, ltb→lt, ap, if◌then◌else◌, Bool-cases, inl, inr,
}

unfoldable pub digit : ℕ → Char
digit zero = "0"
digit (suc zero) = "1"
digit (suc (suc zero)) = "2"
digit (suc (suc (suc zero))) = "3"
digit (suc (suc (suc (suc zero)))) = "4"
digit (suc (suc (suc (suc (suc zero))))) = "5"
digit (suc (suc (suc (suc (suc (suc zero)))))) = "6"
digit (suc (suc (suc (suc (suc (suc (suc zero))))))) = "7"
digit (suc (suc (suc (suc (suc (suc (suc (suc zero)))))))) = "8"
digit _ = "9"

-- Each round divides by ten; `suc n` rounds are enough for `n`.
unfoldable pub show_from : ℕ → ℕ → String → String
show_from zero n rest = rest
show_from (suc fuel) n rest =
    let more = show_from fuel (n / 10) (digit (n % 10) ∷ rest) in
    if ltb n 10 then digit n ∷ rest else more

unfoldable pub show : ℕ → String
unfolding show_from digit
show n = show_from (suc n) n ""

is_digit : ℕ → Bool
is_digit c = leb 48 c && leb c 57

unfoldable pub read_from : ℕ → String → Option ℕ
unfolding is_digit
read_from n [] = some n
read_from n (c ∷ s) =
    let more = read_from (n * 10 + (code c - 48)) s in if is_digit (code c) then more else none

-- `Number('')` is 0.
unfoldable pub to_number : String → Option ℕ
unfolding read_from
to_number s = read_from 0 s

code-digit : (d : ℕ) → d < 10 → code (digit d) ≡ 48 + d
unfolding digit
code-digit zero h = refl
code-digit (suc zero) h = refl
code-digit (suc (suc zero)) h = refl
code-digit (suc (suc (suc zero))) h = refl
code-digit (suc (suc (suc (suc zero)))) h = refl
code-digit (suc (suc (suc (suc (suc zero))))) h = refl
code-digit (suc (suc (suc (suc (suc (suc zero)))))) h = refl
code-digit (suc (suc (suc (suc (suc (suc (suc zero))))))) h = refl
code-digit (suc (suc (suc (suc (suc (suc (suc (suc zero)))))))) h = refl
code-digit (suc (suc (suc (suc (suc (suc (suc (suc (suc n))))))))) h = omega arith

read_from-digit :
    (n d : ℕ) (rest : String) → d < 10 → read_from n (digit d ∷ rest) ≡ read_from (n * 10 + d) rest
unfolding read_from
read_from-digit n d rest h = rw (code-digit d h) (
    let e : 48 + d - 48 ≡ d = omega arith in
    let t : (leb 48 (48 + d) && leb (48 + d) 57) ≡ true = ground arith in rw (t, e))

read_from-show_from :
    (fuel n : ℕ) (rest : String) → n < fuel → read_from 0 (show_from fuel n rest) ≡ read_from n rest
unfolding show_from
read_from-show_from zero n rest h = absurd (omega arith)
read_from-show_from (suc fuel) n rest h = elim (Bool-cases (ltb n 10)) [
  | inl small ↦
      rw small
        (read_from-digit 0 n rest (ltb→lt n 10 small) ∙ ap (λ k. read_from k rest) (omega arith))
  | inr big ↦ rw big (
      read_from-show_from fuel (n / 10) (digit (n % 10) ∷ rest) (ground arith)
      ∙ read_from-digit (n / 10) (n % 10) rest (omega arith)
      ∙ ap (λ k. read_from k rest) (omega arith))
]

-- A number is read back from its text.
pub to_number-show : (n : ℕ) → to_number (show n) ≡ some n
unfolding to_number show
to_number-show n = read_from-show_from (suc n) n "" (omega arith)

shows : show 1080 ≡ "1080"
unfolding show
shows = refl
