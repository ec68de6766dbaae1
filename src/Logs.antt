-- ===== src/Logs.antt =====
-- lib/mergeLogLines.ts: a new snapshot of a log is merged onto the lines that are shown. An array is a
-- list; the inner `while` runs on fuel.
pub mod Borders
pub mod Fill
pub mod Overlap
use vyos_client.Base.{
  ℕ, zero, suc, ◌+◌, ◌-◌, min, String, Bool, true, false, not, ◌&&◌, Option, none, some, List, [],
  ◌∷◌, ◌++◌, map, length, get_elem?, drop, ltb, eqb, or_else, ◌==◌, if◌then◌else◌, ◌≡◌, refl,
}

-- An entry of `combined`: a line, or `none` for SEPARATOR.
abbrev pub Entry : Type 0
Entry = Option String

-- `===` on entries of an array, where `none` is a place out of range.
abbrev pub same_entry : Option Entry → Option Entry → Bool
same_entry none none = true
same_entry (some none) (some none) = true
same_entry (some (some v)) (some (some w)) = v == w
same_entry _ _ = false

-- `failure[m]`
abbrev pub failure_at : List ℕ → ℕ → ℕ
failure_at failure m = or_else (get_elem? failure m) 0

-- `failure[i] = j`
abbrev pub set_elem {ℓ} : {A : Type ℓ} → ℕ → A → List A → List A
set_elem i a [] = []
set_elem zero a (x ∷ xs) = a ∷ xs
set_elem (suc i) a (x ∷ xs) = x ∷ set_elem i a xs

-- `new Array(n).fill(0)`
abbrev pub zeros : ℕ → List ℕ
zeros zero = []
zeros (suc n) = 0 ∷ zeros n

-- `while (j > 0 && combined[i] !== combined[j]) j = failure[j - 1]`
unfoldable pub fall_back : ℕ → List Entry → List ℕ → ℕ → ℕ → ℕ
fall_back zero combined failure i j = j
fall_back (suc fuel) combined failure i j =
    let earlier = fall_back fuel combined failure i (failure_at failure (j - 1)) in
    if ltb 0 j && not (same_entry (get_elem? combined i) (get_elem? combined j)) then earlier else j

-- The body of the `for` loop: the value that it stores. Each round of the inner loop makes `j` smaller,
-- so its first value is fuel enough.
unfoldable pub next_failure : List Entry → List ℕ → ℕ → ℕ
unfolding fall_back
next_failure combined failure i =
    let j =
      fall_back (failure_at failure (i - 1)) combined failure i (failure_at failure (i - 1)) in
    if same_entry (get_elem? combined i) (get_elem? combined j) then j + 1 else j

-- The `for` loop from `i` on, for the rounds that are left.
unfoldable pub fill : ℕ → List Entry → ℕ → List ℕ → List ℕ
unfolding next_failure
fill zero combined i failure = failure
fill (suc left) combined i failure =
    fill left combined (i + 1) (set_elem i (next_failure combined failure i) failure)

-- `[...next, SEPARATOR, ...tailOfPrevious]`
unfoldable pub combine : List String → List String → List Entry
combine next tail = map some next ++ none ∷ map some tail

unfoldable pub longest_suffix_prefix_overlap : List String → List String → ℕ
unfolding fill combine
longest_suffix_prefix_overlap previous next =
    let bound = min (length previous) (length next) in
    let combined = combine next (drop (length previous - bound) previous) in
    let failure = fill (length combined - 1) combined 1 (zeros (length combined)) in
    if eqb bound 0 then 0 else failure_at failure (length combined - 1)

unfoldable pub merge_log_lines : List String → List String → List String
unfolding longest_suffix_prefix_overlap
merge_log_lines [] next = next
merge_log_lines (p ∷ previous) [] = []
merge_log_lines (p ∷ previous) (n ∷ next) =
    let overlap = longest_suffix_prefix_overlap (p ∷ previous) (n ∷ next) in
    if eqb overlap 0 then n ∷ next else (p ∷ previous) ++ drop overlap (n ∷ next)

merges :
    merge_log_lines ("a" ∷ "b" ∷ "a" ∷ "b" ∷ []) ("a" ∷ "b" ∷ "c" ∷ [])
    ≡ "a" ∷ "b" ∷ "a" ∷ "b" ∷ "c" ∷ []
unfolding merge_log_lines
merges = refl
