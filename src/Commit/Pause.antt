-- ===== src/Commit/Pause.antt =====
-- components/PendingChangesBar.tsx: what happens to the bar between two answers, while changes are
-- queued, the fields of "Safe apply" are edited and the clock ticks before the end of the window.
use vyos_client.Base.{
  ℕ, ◌-◌, ◌<◌, String, Bool, false, ◌≡◌, refl, sym, ap, ◌∙◌, List, [], ◌∷◌, ◌++◌, Option, none,
  some, append_assoc, append-nil, Bool-cases, inl, inr, arith, leb,
}
use vyos_client.Store.Pending.{PendingChange, NewChange, add}
use vyos_client.Commit.{SafeApplyInput, Bar}
use vyos_client.Commit.Handlers.{tick, tick_at, whole_seconds}
use vyos_client.Commit.Steps.{
  Event, queue_change, toggle_safe_apply, edit_seconds, default_arrives, clock, step, allowed,
  handle,
}

abbrev pub entry : String → NewChange → PendingChange
entry id change = record { id = id; op = change.op; label = change.label }

-- The clock has not reached the end of an open window.
abbrev pub IsBefore : ℕ → Option ℕ → Type 0
IsBefore now none = Unit
IsBefore now (some ends) = now < ends

-- `Pause b queued c`: from `b` to `c` no button of the bar is clicked and no answer comes; the changes
-- `queued` are queued, each as a new entry.
pub data Pause (b : Bar) : List PendingChange → Bar → Type 0 where
  begins : Pause b [] b
  queues :
      (queued : List PendingChange) (c : Bar) (id : String) (change : NewChange)
      → Pause b queued c
      → add id change c.changes ≡ c.changes ++ entry id change ∷ []
      → Pause b (queued ++ entry id change ∷ []) (step (queue_change id change) c)
  ticks :
      (queued : List PendingChange) (c : Bar) (now : ℕ)
      → Pause b queued c
      → IsBefore now c.ends_at
      → Pause b queued (step (clock now) c)
  toggles :
      (queued : List PendingChange) (c : Bar) (on : Bool)
      → Pause b queued c
      → Pause b queued (step (toggle_safe_apply on) c)
  edits :
      (queued : List PendingChange) (c : Bar) (n : ℕ)
      → Pause b queued c
      → Pause b queued (step (edit_seconds n) c)
  hears :
      (queued : List PendingChange) (c : Bar) (n : ℕ)
      → Pause b queued c
      → Pause b queued (step (default_arrives n) c)

-- The parts that a pause leaves alone, and the queue that it makes longer.
pub record IsPaused (b : Bar) (queued : List PendingChange) (c : Bar) : Type 0 where
  pub queue : c.changes ≡ b.changes ++ queued
  pub committed : c.committed_changes ≡ b.committed_changes
  pub working : c.busy ≡ b.busy
  pub awaited : c.flight ≡ b.flight
  pub trial : c.pending_action ≡ b.pending_action
  pub batch : c.pending_commit_changes ≡ b.pending_commit_changes
  pub save_after : c.save_after_confirm ≡ b.save_after_confirm
  pub window : c.ends_at ≡ b.ends_at

-- Both bars agree in these parts.
pub record Agrees (c d : Bar) : Type 0 where
  pub queue : d.changes ≡ c.changes
  pub committed : d.committed_changes ≡ c.committed_changes
  pub working : d.busy ≡ c.busy
  pub awaited : d.flight ≡ c.flight
  pub trial : d.pending_action ≡ c.pending_action
  pub batch : d.pending_commit_changes ≡ c.pending_commit_changes
  pub save_after : d.save_after_confirm ≡ c.save_after_confirm
  pub window : d.ends_at ≡ c.ends_at

-- The seconds shown and the fields of "Safe apply" are other parts.
abbrev quietly : ℕ → SafeApplyInput → Bar → Bar
quietly shown input c = record c { seconds_left = shown; safe_apply_input = input }

quietly-Agrees : (shown : ℕ) (input : SafeApplyInput) (c : Bar) → Agrees c (quietly shown input c)
quietly-Agrees shown input c = record {
  queue = refl;
  committed = refl;
  working = refl;
  awaited = refl;
  trial = refl;
  batch = refl;
  save_after = refl;
  window = refl;
}

unchanged-Agrees : (c : Bar) → Agrees c c
unchanged-Agrees c = quietly-Agrees c.seconds_left c.safe_apply_input c

IsPaused-Agrees :
    (b : Bar) (queued : List PendingChange) (c d : Bar)
    → IsPaused b queued c
    → Agrees c d
    → IsPaused b queued d
IsPaused-Agrees b queued c d p a = record {
  queue = a.queue ∙ p.queue;
  committed = a.committed ∙ p.committed;
  working = a.working ∙ p.working;
  awaited = a.awaited ∙ p.awaited;
  trial = a.trial ∙ p.trial;
  batch = a.batch ∙ p.batch;
  save_after = a.save_after ∙ p.save_after;
  window = a.window ∙ p.window;
}

-- A field of "Safe apply", whether the button can be clicked or not.
field-Agrees : (e : Event) (c : Bar) → Agrees c (handle e c) → Agrees c (step e c)
unfolding step
field-Agrees e c h = elim (Bool-cases (allowed e c)) [
  | inl on ↦ rw on h
  | inr off ↦ rw off (unchanged-Agrees c)
]

tick_at-Agrees : (c : Bar) (now : ℕ) (o : Option ℕ) → IsBefore now o → Agrees c (tick_at now o c)
unfolding tick_at
tick_at-Agrees c now none h = unchanged-Agrees c
tick_at-Agrees c now (some ends) h =
    let e : leb (whole_seconds (ends - now)) 0 ≡ false = ground arith in
    rw e (quietly-Agrees (whole_seconds (ends - now)) c.safe_apply_input c)

pub Pause-IsPaused :
    (b : Bar) (queued : List PendingChange) (c : Bar) → Pause b queued c → IsPaused b queued c
unfolding step allowed handle tick
Pause-IsPaused b _ _ Pause.begins = record {
  queue = sym (append-nil b.changes);
  committed = refl;
  working = refl;
  awaited = refl;
  trial = refl;
  batch = refl;
  save_after = refl;
  window = refl;
}
Pause-IsPaused b _ _ (Pause.queues queued c id change h e) =
    let p = Pause-IsPaused b queued c h in
    record {
      queue = e ∙ ap (λ q. q ++ entry id change ∷ []) p.queue ∙ append_assoc b.changes queued _;
      committed = p.committed;
      working = p.working;
      awaited = p.awaited;
      trial = p.trial;
      batch = p.batch;
      save_after = p.save_after;
      window = p.window;
    }
Pause-IsPaused b _ _ (Pause.ticks queued c now h before) =
    IsPaused-Agrees b queued c _ (Pause-IsPaused b queued c h)
      (tick_at-Agrees c now c.ends_at before)
Pause-IsPaused b _ _ (Pause.toggles queued c on h) =
    IsPaused-Agrees b queued c _ (Pause-IsPaused b queued c h) (
      field-Agrees (toggle_safe_apply on) c
        (quietly-Agrees c.seconds_left (record (c.safe_apply_input) { enabled = on }) c))
Pause-IsPaused b _ _ (Pause.edits queued c n h) =
    IsPaused-Agrees b queued c _ (Pause-IsPaused b queued c h) (
      field-Agrees (edit_seconds n) c
        (quietly-Agrees c.seconds_left (record (c.safe_apply_input) { edited = some n }) c))
Pause-IsPaused b _ _ (Pause.hears queued c n h) =
    IsPaused-Agrees b queued c _ (Pause-IsPaused b queued c h) (
      field-Agrees (default_arrives n) c
        (quietly-Agrees c.seconds_left (record (c.safe_apply_input) { reported = some n }) c))
