-- ===== src/Warnings/Placeholders.antt =====
-- lib/configWarningRules.ts: a placeholder whose field is missing stays as it is.
use Prim.Native.Char.{Char, code}
use Prim.Native.String.{[], ◌∷◌, ◌++◌}
use vyos_client.Base.{
  String, true, not, ◌&&◌, none, some, ◌≡◌, refl, sym, ap, ◌∙◌, eqb, eqb_iff, ◌==◌, Bool-cases, inl,
  inr, ◌⊎◌, arith,
}
use text.Mathlib.TextEquality.{Char-path}
use text.Mathlib.TextLemmas.{append_assoc, cons-append, nil-append, append-nil}
use vyos_client.Json.{Value, undefined, null}
use vyos_client.Warnings.{replacement, is_word, replace_from, interpolate}

-- The field is missing: there is nothing, or null.
abbrev pub IsMissing : Value → Type 0
IsMissing v = (v ≡ undefined) ⊎ (v ≡ null)

replacement-missing :
    (key : String) (v : Value) → IsMissing v → replacement key v ≡ "{" ++ (key ++ "}")
replacement-missing key v (inl e) = rw e refl
replacement-missing key v (inr e) = rw e refl

single-append : (c : Char) (s : String) → (c ∷ []) ++ s ≡ c ∷ s
single-append c s = cons-append c [] s ∙ ap (◌∷◌ c) (nil-append s)

-- A placeholder that is put back, and what follows it.
closed : (key s : String) → ("{" ++ (key ++ "}")) ++ s ≡ "{" ++ (key ++ ("}" ∷ s))
closed key s =
    append_assoc "{" (key ++ "}") s
    ∙ ap (λ t. "{" ++ t) (append_assoc key "}" s ∙ ap (λ t. key ++ t) (single-append "}" s))

module _ (context : String → Value) (h : (key : String) → IsMissing (context key)) where
  -- What is read goes out again, also while a placeholder may be open.
  abbrev Same : String → Type 0
  Same s =
      (replace_from context none s ≡ s)
      × ((key : String) → replace_from context (some key) s ≡ "{" ++ (key ++ s))

  opened-Same : (s : String) → Same s → replace_from context (some "") s ≡ "{" ∷ s
  opened-Same s (_, o) = o "" ∙ ap (λ t. "{" ++ t) (nil-append s) ∙ single-append "{" s

  replace_from-Same-none :
      (c : Char) (s : String) → Same s → replace_from context none (c ∷ s) ≡ c ∷ s
  unfolding replace_from
  replace_from-Same-none c s same = elim (Bool-cases (eqb (code c) b'{')) [
    | inl e ↦
        let brace : c ≡ "{" = Char-path c "{" ((eqb_iff (code c) b'{').0 e) in
        rw e (opened-Same s same ∙ ap (λ d. d ∷ s) (sym brace))
    | inr e ↦ rw e (ap (◌∷◌ c) same.0)
  ]

  replace_from-Same-some :
      (c : Char) (s : String)
      → Same s
      → (key : String) → replace_from context (some key) (c ∷ s) ≡ "{" ++ (key ++ (c ∷ s))
  unfolding replace_from
  replace_from-Same-some c s same key = elim (Bool-cases (is_word (code c))) [
    | inl w ↦ rw w (
        same.1 (key ++ (c ∷ []))
        ∙ ap (λ t. "{" ++ t) (append_assoc key (c ∷ []) s ∙ ap (λ t. key ++ t) (single-append c s)))
    | inr w ↦ elim (Bool-cases (eqb (code c) b'}' && not (key == ""))) [
      | inl e ↦
          let code_eq : eqb (code c) b'}' ≡ true = ground arith in
          let brace : c ≡ "}" = Char-path c "}" ((eqb_iff (code c) b'}').0 code_eq) in
          rw (w, e)
            (ap (λ t. t ++ replace_from context none s)
                (replacement-missing key (context key) (h key))
              ∙ ap (λ t. ("{" ++ (key ++ "}")) ++ t) same.0
              ∙ closed key s
              ∙ ap (λ d. "{" ++ (key ++ (d ∷ s))) (sym brace))
      | inr e ↦ elim (Bool-cases (eqb (code c) b'{')) [
        | inl f ↦
            let brace : c ≡ "{" = Char-path c "{" ((eqb_iff (code c) b'{').0 f) in
            rw (w, e, f)
              (ap (λ t. "{" ++ (key ++ t)) (opened-Same s same ∙ ap (λ d. d ∷ s) (sym brace)))
        | inr f ↦ rw (w, e, f) (ap (λ t. "{" ++ (key ++ (c ∷ t))) same.0)
      ]
    ]
  ]

  replace_from-Same : (s : String) → Same s
  unfolding replace_from
  replace_from-Same [] = (refl, λ key. ap (λ t. "{" ++ t) (sym (append-nil key)))
  replace_from-Same (c ∷ s) =
      let same = replace_from-Same s in
      (replace_from-Same-none c s same, replace_from-Same-some c s same)

  -- Where every field that a template can name is missing, it comes out as it was written.
  pub interpolate-missing : (template : String) → interpolate template context ≡ template
  unfolding interpolate
  interpolate-missing template = (replace_from-Same template).0
