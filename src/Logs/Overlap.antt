-- ===== src/Logs/Overlap.antt =====
-- lib/mergeLogLines.ts: the overlap that is found is the longest one, and the merged lines end with
-- the snapshot.
mod Entries
use vyos_client.Base.{
  ℕ, zero, suc, ◌+◌, ◌-◌, ◌≤◌, ◌<◌, ◌≡◌, refl, sym, ap, ◌∙◌, subst, arith, ◌⊎◌, inl, inr, String,
  min, Bool, true, false, Option, none, some, List, [], ◌∷◌, ◌++◌, map, length, get_elem?, take,
  drop, eqb, eqb_iff, length-append, append_assoc, Bool-cases, if◌then◌else◌,
}
use vyos_client.Logs.{
  Entry, combine, longest_suffix_prefix_overlap, merge_log_lines, fill, zeros, failure_at,
}
use vyos_client.Logs.Borders.{Border, Longest}
use vyos_client.Logs.Fill.{fill-Longest}
use Entries.{
  lift, lift-apart, lift-injective, entry-next, entry-separator, entry-tail, length-combine,
  get_elem?-drop, length-drop, take-drop, drop_overlap,
}

-- The last `k` lines shown are the first `k` of the snapshot.
pub record IsOverlap (previous next : List String) (k : ℕ) : Type 0 where
  pub shown : k ≤ length previous
  pub fetched : k ≤ length next
  pub agree : (t : ℕ) → t < k → get_elem? next t ≡ get_elem? previous (length previous - k + t)

le_or_lt : (a b : ℕ) → (a ≤ b) ⊎ (b < a)
le_or_lt a b = ground arith

module _ (previous next : List String) where
  abbrev tail : List String
  tail = drop (length previous - min (length previous) (length next)) previous

  abbrev combined : List Entry
  combined = combine next tail

  length-tail : length tail ≡ min (length previous) (length next)
  length-tail =
      length-drop (length previous - min (length previous) (length next)) previous ∙ omega arith

  length-combined : length combined ≡ suc (length next + min (length previous) (length next))
  length-combined = length-combine next tail ∙ ap (λ n. suc (length next + n)) length-tail

  -- The entry of `combined` that a line of the shown ones is.
  entry-previous :
      (u t : ℕ)
      → t ≡ suc (length next + u)
      → get_elem? combined t
        ≡ lift (get_elem? previous (length previous - min (length previous) (length next) + u))
  entry-previous u t h =
      entry-tail next tail u t h
      ∙ ap lift (get_elem?-drop (length previous - min (length previous) (length next)) u previous)

  -- No border reaches beyond the separator, on either side.
  Border-fetched : (k : ℕ) → Border (get_elem? combined) (length combined) k → k ≤ length next
  Border-fetched k (h, e) = elim (le_or_lt k (length next)) [
    | inl l ↦ l
    | inr l ↦
        let c = length-combined in
        let t = length combined - k + length next in
        absurd (
          lift-apart _ (
            sym (entry-previous (t - suc (length next)) t (omega arith))
            ∙ sym (e (length next) l)
            ∙ entry-separator next tail))
  ]

  Border-shown : (k : ℕ) → Border (get_elem? combined) (length combined) k → k ≤ length previous
  Border-shown k (h, e) = elim (le_or_lt k (min (length previous) (length next))) [
    | inl l ↦ omega arith
    | inr l ↦
        let c = length-combined in
        let f = Border-fetched k (h, e) in
        let t = k - suc (min (length previous) (length next)) in
        absurd (
          lift-apart _ (
            sym (entry-next next tail t (omega arith))
            ∙ e t (omega arith)
            ∙ ap (get_elem? combined) (omega arith)
            ∙ entry-separator next tail))
  ]

  Border-IsOverlap :
      (k : ℕ) → Border (get_elem? combined) (length combined) k → IsOverlap previous next k
  Border-IsOverlap k (h, e) =
      let c = length-combined in
      let f = Border-fetched k (h, e) in
      let p = Border-shown k (h, e) in
      record {
        shown = p;
        fetched = f;
        agree = λ t u.
            lift-injective (get_elem? next t) (get_elem? previous (length previous - k + t)) (
              sym (entry-next next tail t (omega arith))
              ∙ e t u
              ∙ entry-previous (min (length previous) (length next) - k + t)
                  (length combined - k + t) (omega arith)
              ∙ ap (λ i. lift (get_elem? previous i)) (omega arith));
      }

  IsOverlap-Border :
      (k : ℕ) → IsOverlap previous next k → Border (get_elem? combined) (length combined) k
  IsOverlap-Border k o =
      let c = length-combined in
      let f = o.fetched in
      let p = o.shown in
      (
        omega arith,
        λ t u.
            entry-next next tail t (omega arith)
            ∙ ap lift (o.agree t u)
            ∙ ap (λ i. lift (get_elem? previous i)) (omega arith)
            ∙ sym (
                entry-previous (min (length previous) (length next) - k + t)
                  (length combined - k + t) (omega arith)),
      )

-- The longest of the overlaps.
abbrev pub IsLongest : List String → List String → ℕ → Type 0
IsLongest previous next k =
    IsOverlap previous next k × ((m : ℕ) → IsOverlap previous next m → m ≤ k)

-- No line is fetched or none is shown: nothing overlaps.
zero-IsLongest :
    (previous next : List String)
    → min (length previous) (length next) ≡ 0
    → IsLongest previous next 0
zero-IsLongest previous next h = (
  record { shown = omega arith; fetched = omega arith; agree = λ t u. absurd (omega arith) },
  λ m o. let p = o.shown in let f = o.fetched in omega arith,
)

-- The single pass over the two sequences, with its separator and its failure function, finds the
-- longest suffix of the lines shown that is a prefix of the snapshot: the lengths that a comparison
-- of every candidate would try are no longer.
pub overlap-IsLongest :
    (previous next : List String)
    → IsLongest previous next (longest_suffix_prefix_overlap previous next)
unfolding longest_suffix_prefix_overlap
overlap-IsLongest previous next =
    let b = min (length previous) (length next) in
    elim (Bool-cases (eqb b 0)) [
      | inl z ↦ rw z (zero-IsLongest previous next ((eqb_iff b 0).0 z))
      | inr p ↦
          let c = length-combined previous next in
          let longest =
            fill-Longest (combine next (drop (length previous - b) previous)) (omega arith) in
          rw p (
            Border-IsOverlap previous next _ longest.0,
            λ m o. longest.1 m (IsOverlap-Border previous next m o),
          )
    ]

appended-overlap :
    (previous next : List String) (k : ℕ)
    → IsOverlap previous next k
    → previous ++ drop k next ≡ take (length previous - k) previous ++ next
appended-overlap previous next k o =
    let d = length previous - k in
    let p = o.shown in
    let f = o.fetched in
    let n : length (drop d previous) ≡ k = length-drop d previous ∙ omega arith in
    let parts = take-drop d previous in
    let rest : drop d previous ++ drop k next ≡ next =
      subst (λ m. drop d previous ++ drop m next ≡ next) n
        (drop_overlap (drop d previous) next (omega arith)
          (λ t u. o.agree t (omega arith) ∙ sym (get_elem?-drop d t previous))) in
    ap (λ xs. xs ++ drop k next) (sym parts)
    ∙ append_assoc (take d previous) (drop d previous) (drop k next)
    ∙ ap (λ xs. take d previous ++ xs) rest

-- Merging shows the snapshot as it is where nothing overlaps, and otherwise the lines shown, less
-- their longest overlap with it, followed by the whole snapshot.
pub merge_log_lines-IsLongest :
    (previous next : List String)
    → (k : ℕ) × IsLongest previous next k
      × (merge_log_lines previous next
          ≡ (if eqb k 0 then next else take (length previous - k) previous ++ next))
unfolding merge_log_lines
merge_log_lines-IsLongest [] next = (0, zero-IsLongest [] next (ground arith), refl)
merge_log_lines-IsLongest (p ∷ previous) [] =
    (0, zero-IsLongest (p ∷ previous) [] (ground arith), refl)
merge_log_lines-IsLongest (p ∷ previous) (n ∷ next) =
    let k = longest_suffix_prefix_overlap (p ∷ previous) (n ∷ next) in
    let h = overlap-IsLongest (p ∷ previous) (n ∷ next) in
    (
      k,
      h,
      ap (λ xs. if eqb k 0 then n ∷ next else xs)
          (appended-overlap (p ∷ previous) (n ∷ next) k h.0),
    )
