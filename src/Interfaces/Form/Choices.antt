-- ===== src/Interfaces/Form/Choices.antt =====
-- lib/interfaceConfigForm.ts: numbers and choices as a form shows and saves them.
use vyos_client.Base.{
  ℕ, String, true, List, any, ◌≤◌, ◌≡◌, refl, sym, ap, ◌∙◌, ◌⊎◌, inl, inr, ◌==◌, or_else, eq_iff,
  Bool-cases, if◌then◌else◌,
}
use vyos_client.Base.Text.{trim, ne_of_eq-false}
use vyos_client.Base.Number.{show, to_number-show}
use vyos_client.Json.{Value, undefined, str, as_string, to_text}
use vyos_client.Config.Diff.Effect.{edited}
use vyos_client.Interfaces.Parse.{as_number, as_choice}
use vyos_client.Interfaces.Form.{number_text}

-- The numbers up to this one are exact in JavaScript.
abbrev max_safe_integer : ℕ
max_safe_integer = 9007199254740991

-- A blank text, or the digits of an exact number, with no zero in front.
abbrev pub IsNumberText : String → Type 0
IsNumberText text = (text ≡ "") ⊎ ((n : ℕ) × (n ≤ max_safe_integer) × (text ≡ show n))

abbrev pub shown_number : Value → String
shown_number v = number_text (as_number v)

pub shown_number-typed :
    (text : String) → IsNumberText text → (text ≡ "") ⊎ (shown_number (str text) ≡ text)
unfolding as_number number_text as_string to_text
shown_number-typed text (inl e) = inl e
shown_number-typed text (inr (n, _, e)) = inr (rw (e, to_number-show n) refl)

pub missing-shown_number : shown_number undefined ≡ ""
unfolding as_number number_text as_string
missing-shown_number = refl

-- What a form shows for a choice, where nothing valid stands for `fallback`.
abbrev pub shown_choice : List String → String → Value → String
shown_choice choices fallback v = or_else (as_choice choices (as_string v)) fallback

-- A blank text, or one of the choices.
abbrev pub IsChoice : List String → String → Type 0
IsChoice choices text = (text ≡ "") ⊎ (any (λ x. x == text) choices ≡ true)

pub shown_choice-typed :
    (choices : List String) (fallback text : String)
    → IsChoice choices text
    → (text ≡ "") ⊎ (shown_choice choices fallback (str text) ≡ text)
unfolding as_choice as_string to_text
shown_choice-typed choices fallback text (inl e) = inl e
shown_choice-typed choices fallback text (inr h) = inr (rw h refl)

-- What a field with a default shows after a save: a field that is blanked shows the default.
abbrev pub saved_or : String → String → String → String
saved_or fallback old_value new_value =
    if old_value == new_value
    then new_value
    else if trim new_value == ""
    then fallback
    else trim new_value

pub read-edited_or :
    (fallback : String) (read : Value → String) (v v' : Value) (old_value new_value : String)
    → (trim new_value ≡ "") ⊎ (read (str (trim new_value)) ≡ trim new_value)
    → read undefined ≡ fallback
    → old_value ≡ read v
    → v' ≡ edited old_value new_value v
    → read v' ≡ saved_or fallback old_value new_value
read-edited_or fallback read v v' old_value new_value text missing h e =
    ap read e ∙ elim (Bool-cases (old_value == new_value)) [
      | inl same ↦ rw same (sym h ∙ (eq_iff old_value new_value).0 same)
      | inr other ↦ rw other (elim (Bool-cases (trim new_value == "")) [
        | inl blank ↦ rw blank missing
        | inr full ↦ rw full (elim text [
          | inl no_text ↦ absurd (ne_of_eq-false (trim new_value) "" full no_text)
          | inr same ↦ same
        ])
      ])
    ]
