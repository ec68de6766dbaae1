-- ===== src/Config/Diff/Shown.antt =====
-- The text that a form shows for a leaf, before and after a save.
use vyos_client.Base.{
  String, Bool, ◌≡◌, sym, ap, ◌∙◌, ◌==◌, if◌then◌else◌, ◌⊎◌, inl, inr, Bool-cases, eq_iff, arith,
}
use vyos_client.Base.Text.{trim, ne_of_eq-false}
use vyos_client.Json.{Value, undefined, str, as_string, to_text, shown}
use vyos_client.Config.Diff.Effect.{edited, toggled}

-- What a text field shows after a save: an untouched field what it showed before, an edited one
-- its trimmed text.
abbrev pub saved_text : String → String → String
saved_text old_value new_value = if old_value == new_value then new_value else trim new_value

pub shown-edited :
    (v v' : Value) (old_value new_value : String)
    → old_value ≡ shown v
    → v' ≡ edited old_value new_value v
    → shown v' ≡ saved_text old_value new_value
unfolding as_string to_text
shown-edited v v' old_value new_value h e =
    ap shown e ∙ elim (Bool-cases (old_value == new_value)) [
      | inl same ↦ rw same (sym h ∙ (eq_iff old_value new_value).0 same)
      | inr other ↦ rw other (elim (Bool-cases (trim new_value == "")) [
        | inl blank ↦ rw blank (sym ((eq_iff (trim new_value) "").0 blank))
        | inr text ↦ rw text
      ])
    ]

-- A flag shows what was chosen for it.
pub toggled-eq-new :
    (present present' old_value new_value : Bool)
    → old_value ≡ present
    → present' ≡ toggled old_value new_value present
    → present' ≡ new_value
toggled-eq-new present present' old_value new_value h e = ground arith

-- The same for any reading that gives back the text that was typed.
pub read-edited :
    (read : Value → String) (v v' : Value) (old_value new_value : String)
    → (trim new_value ≡ "") ⊎ (read (str (trim new_value)) ≡ trim new_value)
    → read undefined ≡ ""
    → old_value ≡ read v
    → v' ≡ edited old_value new_value v
    → read v' ≡ saved_text old_value new_value
read-edited read v v' old_value new_value text missing h e =
    ap read e ∙ elim (Bool-cases (old_value == new_value)) [
      | inl same ↦ rw same (sym h ∙ (eq_iff old_value new_value).0 same)
      | inr other ↦ rw other (elim (Bool-cases (trim new_value == "")) [
        | inl blank ↦ rw blank (missing ∙ sym ((eq_iff (trim new_value) "").0 blank))
        | inr full ↦ rw full (elim text [
          | inl no_text ↦ absurd (ne_of_eq-false (trim new_value) "" full no_text)
          | inr same ↦ same
        ])
      ])
    ]
