-- ===== src/Base/Text.antt =====
-- The operations of JavaScript strings that the program calls, on code points.
use Prim.Native.Char.{Char, code}
use Prim.Native.Nat.{ℕ, zero, suc, ◌-◌}
use Prim.Native.String.{String, [], ◌∷◌, ◌++◌}
use mathlib.Core.Path.{◌≡◌, refl, ap, ◌∙◌}
use mathlib.Core.Logic.{◌≢◌, inl, inr}
use native.Mathlib.Omega.{arith}
use text.Mathlib.Text.{◌==◌, starts_with}
use text.Mathlib.TextEquality.{eq_iff}
use mathlib.Core.Bool.{Bool, false, ◌&&◌, ◌||◌}
use mathlib.Core.List.{List}
use mathlib.Core.Option.{Option, none, some}
use vyos_client.Base.Tests.{leb, eqb, or_else, if◌then◌else◌, Bool-cases}

-- WhiteSpace and LineTerminator of ECMAScript, which `trim` removes.
unfoldable pub is_space : ℕ → Bool
is_space c =
    (leb 9 c && leb c 13)
    || eqb c 32
    || eqb c 160
    || eqb c 0x1680
    || (leb 0x2000 c && leb c 0x200a)
    || eqb c 0x2028
    || eqb c 0x2029
    || eqb c 0x202f
    || eqb c 0x205f
    || eqb c 0x3000
    || eqb c 0xfeff

unfoldable pub trim_start : String → String
trim_start [] = []
trim_start (c ∷ s) = let rest = trim_start s in if is_space (code c) then rest else c ∷ s

-- One step of `trim_end`: a space before nothing is dropped.
unfoldable pub keep : Char → String → String
keep c [] = if is_space (code c) then [] else c ∷ []
keep c (d ∷ s) = c ∷ d ∷ s

unfoldable pub trim_end : String → String
trim_end [] = []
trim_end (c ∷ s) = keep c (trim_end s)

-- `s.trim()`
unfoldable pub trim : String → String
unfolding trim_start trim_end keep is_space
trim s = trim_end (trim_start s)

trim_start-keep :
    (c : Char) (s : String) → is_space (code c) ≡ false → trim_start (keep c s) ≡ keep c s
unfolding trim_start keep
trim_start-keep c [] h = rw h (rw h)
trim_start-keep c (d ∷ s) h = rw h

trim_end-keep : (c : Char) (s : String) → trim_end s ≡ s → trim_end (keep c s) ≡ keep c s
unfolding trim_end keep
trim_end-keep c [] h = elim (Bool-cases (is_space (code c))) [
  | inl e ↦ rw e refl
  | inr e ↦ rw e (rw e)
]
trim_end-keep c (d ∷ s) h = rw h

trim_end_idem : (s : String) → trim_end (trim_end s) ≡ trim_end s
unfolding trim_end
trim_end_idem [] = refl
trim_end_idem (c ∷ s) = trim_end-keep c (trim_end s) (trim_end_idem s)

trim_start-trim : (s : String) → trim_start (trim_end (trim_start s)) ≡ trim_end (trim_start s)
unfolding trim_start trim_end
trim_start-trim [] = refl
trim_start-trim (c ∷ s) = elim (Bool-cases (is_space (code c))) [
  | inl e ↦ rw e (trim_start-trim s)
  | inr e ↦ rw e (trim_start-keep c (trim_end s) e)
]

-- Trimming a trimmed text changes nothing.
pub trim_idem : (s : String) → trim (trim s) ≡ trim s
unfolding trim
trim_idem s = ap trim_end (trim_start-trim s) ∙ trim_end_idem (trim_start s)

-- `xs.join(sep)`
unfoldable pub join : String → List String → String
join sep List.[] = ""
join sep (List.◌∷◌ x List.[]) = x
join sep (List.◌∷◌ x (List.◌∷◌ y ys)) = x ++ (sep ++ join sep (List.◌∷◌ y ys))

trims : trim " \ta b " ≡ "a b"
unfolding trim
trims = refl

pub eq-false_of_ne : (s t : String) → s ≢ t → (s == t) ≡ false
eq-false_of_ne s t h = ground (arith, eq_iff s t)

pub ne_of_eq-false : (s t : String) → (s == t) ≡ false → s ≢ t
ne_of_eq-false s t h = ground (arith, eq_iff s t)

-- The character at a position of a text, if there is one.
unfoldable pub nth_char : String → ℕ → Option Char
nth_char [] i = none
nth_char (c ∷ s) zero = some c
nth_char (c ∷ s) (suc i) = nth_char s i

-- `s.toLowerCase()` on ASCII, and on the Kelvin sign, the one character outside ASCII that becomes a
-- single ASCII letter. Any other character is left as it is, so that a text compares with an ASCII
-- word as in JavaScript.
unfoldable pub lower_char : Char → Char
unfolding nth_char
lower_char c =
    if leb b'A' (code c) && leb (code c) b'Z'
    then or_else (nth_char "abcdefghijklmnopqrstuvwxyz" (code c - b'A')) c
    else if eqb (code c) 0x212a
    then "k"
    else c

unfoldable pub to_lower : String → String
unfolding lower_char
to_lower [] = []
to_lower (c ∷ s) = lower_char c ∷ to_lower s

-- `s.replaceAll(from, to)` for single characters
unfoldable pub replace_char : Char → Char → String → String
replace_char from to [] = []
replace_char from to (c ∷ s) = (if eqb (code c) (code from) then to else c) ∷ replace_char from to s

-- `s.includes(part)`
unfoldable pub includes : String → String → Bool
includes [] part = starts_with "" part
includes (c ∷ s) part = starts_with (c ∷ s) part || includes s part

lowers : to_lower "DB_Pass" ≡ "db_pass"
unfolding to_lower
lowers = refl
