-- ===== src/Firewall/RuleForm/Action.antt =====
-- The action field: its text determines it, and it is read back from what a save leaves.
use vyos_client.Base.{
  false, Option, none, some, ◌≡◌, refl, sym, ap, ◌∙◌, ◌==◌, inl, inr, Bool-cases, eq_iff,
}
use vyos_client.Base.Text.{trim}
use vyos_client.Json.{Value, as_string, to_text}
use vyos_client.Config.Diff.Effect.{edited}
use vyos_client.Firewall.Types.{RuleAction, accept, action_text}
use vyos_client.Firewall.Parse.{find_action}
use vyos_client.Firewall.RuleForm.{chosen_text}

find_action-chosen_text : (a : Option RuleAction) → find_action (some (chosen_text a)) ≡ a
unfolding find_action chosen_text
find_action-chosen_text none = refl
find_action-chosen_text (some accept) = refl
find_action-chosen_text (some _) = refl

chosen_text-injective : (a b : Option RuleAction) → chosen_text a ≡ chosen_text b → a ≡ b
chosen_text-injective a b h =
    sym (find_action-chosen_text a) ∙ ap (λ t. find_action (some t)) h ∙ find_action-chosen_text b

trim-action_text : (a : RuleAction) → trim (action_text a) ≡ action_text a
unfolding trim action_text
trim-action_text accept = refl
trim-action_text _ = refl

action_text-nonblank : (a : RuleAction) → (action_text a == "") ≡ false
unfolding action_text
action_text-nonblank accept = refl
action_text-nonblank _ = refl

-- An edited action is read back as it was chosen.
edited_action :
    (v v' : Value) (old_action new_action : Option RuleAction)
    → (chosen_text old_action == chosen_text new_action) ≡ false
    → v' ≡ edited (chosen_text old_action) (chosen_text new_action) v
    → find_action (as_string v') ≡ new_action
unfolding find_action chosen_text as_string to_text trim
edited_action v v' old_action none other e = rw (e, other)
edited_action v v' old_action (some a) other e =
    rw (e, other, trim-action_text a, action_text-nonblank a) (find_action-chosen_text (some a))

pub find_action-edited :
    (v v' : Value) (old_action new_action : Option RuleAction)
    → old_action ≡ find_action (as_string v)
    → v' ≡ edited (chosen_text old_action) (chosen_text new_action) v
    → find_action (as_string v') ≡ new_action
find_action-edited v v' old_action new_action h e =
    elim (Bool-cases (chosen_text old_action == chosen_text new_action)) [
      | inl same ↦
          let kept : v' ≡ v = rw (same) at e in
          ap (λ x. find_action (as_string x)) kept
          ∙ sym h
          ∙ chosen_text-injective old_action new_action ((eq_iff _ _).0 same)
      | inr other ↦ edited_action v v' old_action new_action other e
    ]
