-- ===== src/Logs/Fill.antt =====
-- lib/mergeLogLines.ts: the loops fill the array with the longest borders.
use vyos_client.Base.{
  ℕ, zero, suc, ◌+◌, ◌-◌, ◌≤◌, ◌<◌, ◌≡◌, refl, sym, ap, ◌∙◌, subst, arith, ◌⊎◌, inl, inr, true,
  false, Option, none, some, List, [], ◌∷◌, length, get_elem?, ltb, ltb→lt, eq_iff, eq_refl,
  Bool-cases,
}
use vyos_client.Logs.{Entry, same_entry, failure_at, set_elem, zeros, fall_back, next_failure, fill}
use vyos_client.Logs.Borders.{
  Border, Longest, Border-zero, Border-trans, Border-shorter, Border-suc, Border-pred, lt_or_eq,
}

same_entry→eq : (a b : Option Entry) → same_entry a b ≡ true → a ≡ b
same_entry→eq none none h = refl
same_entry→eq none (some w) h = cc
same_entry→eq (some none) none h = cc
same_entry→eq (some (some v)) none h = cc
same_entry→eq (some none) (some none) h = refl
same_entry→eq (some none) (some (some w)) h = cc
same_entry→eq (some (some v)) (some none) h = cc
same_entry→eq (some (some v)) (some (some w)) h = ap (λ x. some (some x)) ((eq_iff v w).0 h)

same_entry_refl : (a : Option Entry) → same_entry a a ≡ true
same_entry_refl none = refl
same_entry_refl (some none) = refl
same_entry_refl (some (some v)) = eq_refl v

eq→same_entry : (a b : Option Entry) → a ≡ b → same_entry a b ≡ true
eq→same_entry a b e = subst (λ x. same_entry a x ≡ true) e (same_entry_refl a)

length-set_elem : (i v : ℕ) (xs : List ℕ) → length (set_elem i v xs) ≡ length xs
length-set_elem i v [] = refl
length-set_elem zero v (x ∷ xs) = refl
length-set_elem (suc i) v (x ∷ xs) = ap suc (length-set_elem i v xs)

failure_at-set_elem : (i v : ℕ) (xs : List ℕ) → i < length xs → failure_at (set_elem i v xs) i ≡ v
failure_at-set_elem i v [] h = absurd (omega arith)
failure_at-set_elem zero v (x ∷ xs) h = refl
failure_at-set_elem (suc i) v (x ∷ xs) h = failure_at-set_elem i v xs (omega arith)

failure_at-below :
    (i v m : ℕ) (xs : List ℕ) → m < i → failure_at (set_elem i v xs) m ≡ failure_at xs m
failure_at-below i v m [] h = refl
failure_at-below zero v m (x ∷ xs) h = absurd (omega arith)
failure_at-below (suc i) v zero (x ∷ xs) h = refl
failure_at-below (suc i) v (suc m) (x ∷ xs) h = failure_at-below i v m xs (omega arith)

module _ (combined : List Entry) where
  -- The array holds the longest borders of the first beginnings.
  abbrev pub Filled : List ℕ → ℕ → Type 0
  Filled failure i = (m : ℕ) → m < i → Longest (get_elem? combined) (suc m) (failure_at failure m)

  -- Every border that the next entry continues is found from `j`.
  abbrev pub Covers : ℕ → ℕ → Type 0
  Covers i j =
      Border (get_elem? combined) i j
      × ((k : ℕ)
          → Border (get_elem? combined) i k
          → get_elem? combined k ≡ get_elem? combined i
          → k ≤ j)

  -- Where the inner loop can stop.
  abbrev pub Stops : ℕ → ℕ → Type 0
  Stops i j = (j ≡ 0) ⊎ (same_entry (get_elem? combined i) (get_elem? combined j) ≡ true)

  -- A border that the next entry continues is not `j`, where the entries differ.
  not_last :
      (i j k : ℕ)
      → same_entry (get_elem? combined i) (get_elem? combined j) ≡ false
      → get_elem? combined k ≡ get_elem? combined i
      → k ≤ j
      → k < j
  not_last i j k n e h = elim (lt_or_eq k j (omega arith)) [
    | inl l ↦ l
    | inr q ↦
        let s = get_elem? combined in
        let same = eq→same_entry (s i) (s j) (sym e ∙ ap s q) in absurd (ground arith)
  ]

  Covers-failure :
      (failure : List ℕ) (i j : ℕ)
      → Filled failure i
      → 0 < j
      → same_entry (get_elem? combined i) (get_elem? combined j) ≡ false
      → Covers i j
      → Covers i (failure_at failure (j - 1)) × (failure_at failure (j - 1) < j)
  Covers-failure failure i j f p n (b, c) =
      let s = get_elem? combined in
      let r = failure_at failure (j - 1) in
      let lj : j < i = b.0 in
      let l : Longest s j r = subst (λ m. Longest s m r) (omega arith) (f (j - 1) (omega arith)) in
      (
        (
          Border-trans s i j r b l.0,
          λ k bk e. l.1 k (Border-shorter s i j k b bk (not_last i j k n e (c k bk e))),
        ),
        l.0.0,
      )

  -- With at least as much fuel as `j`, and an array that holds the longest borders of the beginnings
  -- before `i`, the inner loop ends where its condition fails, and it has passed over no border that
  -- the next entry continues.
  pub fall_back-Stops :
      (fuel : ℕ) (failure : List ℕ) (i j : ℕ)
      → j ≤ fuel
      → Filled failure i
      → Covers i j
      → Covers i (fall_back fuel combined failure i j)
        × Stops i (fall_back fuel combined failure i j)
  unfolding fall_back
  fall_back-Stops zero failure i j h f c = (c, inl (omega arith))
  fall_back-Stops (suc fuel) failure i j h f c = elim (Bool-cases (ltb 0 j)) [
    | inr z ↦ rw z (c, inl (ground arith))
    | inl p ↦ elim (Bool-cases (same_entry (get_elem? combined i) (get_elem? combined j))) [
      | inl e ↦ rw (p, e) (c, inr e)
      | inr e ↦
          rw (p, e)
            (let (d, l) = Covers-failure failure i j f (ltb→lt 0 j p) e c in
              fall_back-Stops fuel failure i (failure_at failure (j - 1)) (omega arith) f d)
    ]
  ]

  Longest-suc :
      (i r : ℕ)
      → Covers i r
      → get_elem? combined r ≡ get_elem? combined i
      → Longest (get_elem? combined) (suc i) (suc r)
  Longest-suc i r (b, c) e = (Border-suc (get_elem? combined) i r b e, λ m bm. grown i r c m bm)
    where
      grown :
          (i r : ℕ)
          → ((k : ℕ)
              → Border (get_elem? combined) i k
              → get_elem? combined k ≡ get_elem? combined i
              → k ≤ r)
          → (m : ℕ) → Border (get_elem? combined) (suc i) m
          → m ≤ suc r
      grown i r c zero bm = omega arith
      grown i r c (suc k) bm =
          let (bk, e) = Border-pred (get_elem? combined) i k bm in let l = c k bk e in omega arith

  -- Where not even the first entry goes on, the next beginning has no border but the empty one.
  Longest-none :
      (i r : ℕ)
      → Covers i r
      → same_entry (get_elem? combined i) (get_elem? combined r) ≡ false
      → Stops i r
      → Longest (get_elem? combined) (suc i) r
  Longest-none i r (b, c) n (inr e) = absurd (ground arith)
  Longest-none i r (b, c) n (inl z) =
      subst (Longest (get_elem? combined) (suc i)) (sym z)
        (Border-zero (get_elem? combined) (suc i) (omega arith), none_longer)
    where
      none_longer : (m : ℕ) → Border (get_elem? combined) (suc i) m → m ≤ 0
      none_longer zero bm = omega arith
      none_longer (suc k) bm =
          let (bk, e) = Border-pred (get_elem? combined) i k bm in
          let l = c k bk e in
          let q : k ≡ r = omega arith in
          let same =
            eq→same_entry (get_elem? combined i) (get_elem? combined r)
              (sym e ∙ ap (get_elem? combined) q) in
          absurd (ground arith)

  Filled-set_elem :
      (failure : List ℕ) (i : ℕ)
      → i < length failure
      → Filled failure i
      → Longest (get_elem? combined) (suc i) (next_failure combined failure i)
      → Filled (set_elem i (next_failure combined failure i) failure) (i + 1)
  Filled-set_elem failure i h f l m u = elim (lt_or_eq m i (omega arith)) [
    | inl below ↦
        subst (Longest (get_elem? combined) (suc m))
          (sym (failure_at-below i (next_failure combined failure i) m failure below)) (f m below)
    | inr q ↦
        subst
          (λ x.
            Longest (get_elem? combined) (suc x)
              (failure_at (set_elem i (next_failure combined failure i) failure) x))
          (sym q)
          (subst (Longest (get_elem? combined) (suc i))
            (sym (failure_at-set_elem i (next_failure combined failure i) failure h)) l)
  ]

  pub Filled-zeros : (n : ℕ) → 0 < n → Filled (zeros n) 1
  Filled-zeros zero p m h = absurd (omega arith)
  Filled-zeros (suc n) p zero h =
      (Border-zero (get_elem? combined) 1 (omega arith), λ k b. let l : k < 1 = b.0 in omega arith)
  Filled-zeros (suc n) p (suc m) h = absurd (omega arith)

  -- What the loop stores is the longest border of the next beginning.
  next_failure-Longest :
      (failure : List ℕ) (i : ℕ)
      → 0 < i
      → Filled failure i
      → Longest (get_elem? combined) (suc i) (next_failure combined failure i)
  unfolding next_failure
  next_failure-Longest failure i p f =
      let s = get_elem? combined in
      let start = failure_at failure (i - 1) in
      let l : Longest s i start =
        subst (λ m. Longest s m start) (omega arith) (f (i - 1) (omega arith)) in
      let r = fall_back start combined failure i start in
      let (c, stops) =
        fall_back-Stops start failure i start (omega arith) f (l.0, λ k bk e. l.1 k bk) in
      elim (Bool-cases (same_entry (s i) (s r))) [
        | inl e ↦ rw e (
            subst (Longest s (suc i)) (omega arith)
              (Longest-suc i r c (sym (same_entry→eq (s i) (s r) e))))
        | inr n ↦ rw n (Longest-none i r c n stops)
      ]

  pub fill-Filled :
      (left : ℕ) (failure : List ℕ) (i : ℕ)
      → 0 < i
      → i + left ≤ length failure
      → Filled failure i
      → Filled (fill left combined i failure) (i + left)
  unfolding fill
  fill-Filled zero failure i p h f = subst (Filled failure) (omega arith) f
  fill-Filled (suc left) failure i p h f =
      let v = next_failure combined failure i in
      subst (Filled (fill left combined (i + 1) (set_elem i v failure))) (omega arith) (
        fill-Filled left (set_elem i v failure) (i + 1) (omega arith)
          (omega (arith, length-set_elem i v failure))
          (Filled-set_elem failure i (omega arith) f (next_failure-Longest failure i p f)))

  length-zeros : (n : ℕ) → length (zeros n) ≡ n
  length-zeros zero = refl
  length-zeros (suc n) = ap suc (length-zeros n)

  -- The last entry of the array is the longest border of all of it.
  pub fill-Longest :
      0 < length combined
      → Longest (get_elem? combined) (length combined) (
          failure_at
            (fill (length combined - 1) combined 1 (zeros (length combined)))
            (length combined - 1))
  fill-Longest h =
      let n = length combined in
      let s = get_elem? combined in
      let r = failure_at (fill (n - 1) combined 1 (zeros n)) (n - 1) in
      subst (λ m. Longest s m r) (omega arith)
        (fill-Filled (n - 1) (zeros n) 1 (omega arith) (omega (arith, length-zeros n))
          (Filled-zeros n h) (n - 1) (omega arith))
