-- ===== src/Commit/Guards.antt =====
-- components/PendingChangesBar.tsx: what holds when a button of the bar can be clicked.
use vyos_client.Base.{
  Bool, true, false, not, ◌&&◌, ◌||◌, ◌≡◌, refl, Option, none, some, Bool-cases, inl, inr, arith,
  if◌then◌else◌,
}
use vyos_client.Commit.{
  Bar, View, hidden, confirm_panel, error_only, unsaved_bar, pending_bar, view, valid,
  invalid_quote_changes, is_some, is_empty,
}
use vyos_client.Commit.Steps.{is_view, can_commit}

-- The early returns of the component, on what they test.
abbrev chosen : Bool → Bool → Bool → Bool → View
chosen no_changes opened failed no_commit =
    if no_changes && not opened && not failed && no_commit
    then hidden
    else if opened
    then confirm_panel
    else if no_changes && failed
    then error_only
    else if no_changes && not failed && not no_commit
    then unsaved_bar
    else pending_bar

chosen_pending :
    (a o f n : Bool) → is_view pending_bar (chosen a o f n) ≡ true → (o ≡ false) × (a ≡ false)
chosen_pending a o f n h = elim (Bool-cases o) [ inl e ↦ ground arith | inr e ↦ ground arith ]

chosen_unsaved : (a o f n : Bool) → is_view unsaved_bar (chosen a o f n) ≡ true → o ≡ false
chosen_unsaved a o f n h = ground arith

chosen_confirm : (a o f n : Bool) → is_view confirm_panel (chosen a o f n) ≡ true → o ≡ true
chosen_confirm a o f n h = ground arith

open_chosen : (a o f n : Bool) → o ≡ true → is_view confirm_panel (chosen a o f n) ≡ true
open_chosen a o f n h = ground arith

pub open-confirm_panel :
    (b : Bar) → is_some b.ends_at ≡ true → is_view confirm_panel (view b) ≡ true
unfolding view
open-confirm_panel b h =
    open_chosen (is_empty b.changes) (is_some b.ends_at) (is_some b.error)
      (is_empty b.committed_changes) h

pub confirm_panel-open :
    (b : Bar) → is_view confirm_panel (view b) ≡ true → is_some b.ends_at ≡ true
unfolding view
confirm_panel-open b h =
    chosen_confirm (is_empty b.changes) (is_some b.ends_at) (is_some b.error)
      (is_empty b.committed_changes) h

none_of_is_some {ℓ} : {A : Type ℓ} (o : Option A) → is_some o ≡ false → o ≡ none
none_of_is_some none h = refl
none_of_is_some (some a) h = cc

pub pending_bar-closed :
    (b : Bar)
    → is_view pending_bar (view b) ≡ true
    → (b.ends_at ≡ none) × (is_empty b.changes ≡ false)
unfolding view
pending_bar-closed b h =
    let (o, a) =
      chosen_pending (is_empty b.changes) (is_some b.ends_at) (is_some b.error)
        (is_empty b.committed_changes) h in
    (none_of_is_some b.ends_at o, a)

pub unsaved_bar-closed : (b : Bar) → is_view unsaved_bar (view b) ≡ true → b.ends_at ≡ none
unfolding view
unsaved_bar-closed b h = none_of_is_some b.ends_at (
    chosen_unsaved (is_empty b.changes) (is_some b.ends_at) (is_some b.error)
      (is_empty b.committed_changes) h)

can_commit_parts :
    (v w x e : Bool)
    → (v && not (w || not x || not e)) ≡ true
    → (v ≡ true) × (w ≡ false) × (x ≡ true) × (e ≡ true)
can_commit_parts v w x e h = ground arith

-- The commit buttons work on the bar of pending changes, while no request is in flight, with valid
-- seconds and no quote.
pub can_commit-parts :
    (b : Bar)
    → can_commit b ≡ true
    → (is_view pending_bar (view b) ≡ true)
      × (b.busy ≡ false)
      × (valid b.safe_apply_input ≡ true)
      × (is_empty (invalid_quote_changes b.changes) ≡ true)
unfolding can_commit
can_commit-parts b h =
    can_commit_parts (is_view pending_bar (view b)) b.busy (valid b.safe_apply_input)
      (is_empty (invalid_quote_changes b.changes)) h
