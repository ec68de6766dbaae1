-- ===== src/Commit/Trial.antt =====
-- components/PendingChangesBar.tsx and hooks/useConfirmCountdown.ts: a commit or a rollback from the
-- click to its end, with a pause before each answer and while the confirm window is open.
use vyos_client.Base.{
  ℕ, ◌+◌, ◌-◌, ◌*◌, ◌≤◌, String, Bool, true, false, ◌≡◌, refl, sym, ap, subst, ◌∙◌, List, ◌++◌,
  none, some, append_assoc, or_else, arith, leb,
}
use vyos_client.Store.Pending.{PendingChange, remove_many}
use vyos_client.Store.Pending.Removal.{ids, Fresh, remove_many-committed}
use vyos_client.Store.Unsaved.{mark_committed}
use vyos_client.Commit.{
  PendingAction, commit, rollback, CommitResponse, keeping, Bar, SafeApplyInput, seconds, is_some,
}
use vyos_client.Commit.Handlers.{
  start, finish, finish_keep, set_error, confirm_start, confirm_stop, settle, run_commit,
  commit_result, handle_keep, after_keep, keep_result, run_rollback, rollback_result, receive,
  expire, expiry_message, tick, tick_at, fulfilled, whole_seconds, rollback_confirm_seconds,
}
use vyos_client.Commit.Steps.{
  Event, step, reply, clock, click_commit, click_keep, click_rollback, allowed, handle, can_commit,
}
use vyos_client.Commit.Guards.{open-confirm_panel}
use vyos_client.Commit.Pause.{Pause, IsPaused, Pause-IsPaused}

-- The button of a commit or a rollback, and the seconds that it asks for.
abbrev pub click : PendingAction → Bool → Event
click commit also_save = click_commit also_save
click rollback also_save = click_rollback

abbrev pub asked : PendingAction → SafeApplyInput → ℕ
asked commit i = seconds i
asked rollback i = rollback_confirm_seconds i

-- The end of the window that an answer opens.
abbrev pub deadline : ℕ → CommitResponse → ℕ → ℕ
deadline now response requested = now + or_else response.confirm_seconds requested * 1000

abbrev pub answer : ℕ → CommitResponse → Event
answer now response = reply (fulfilled now response)

-- What a commit that succeeded leaves: the changes queued since, and the others as committed.
abbrev pub IsCommitted : List PendingChange → Bar → Bar → Type 0
IsCommitted queued_since b ended =
    (ended.changes ≡ queued_since) × (ended.committed_changes ≡ b.committed_changes ++ b.changes)

step-allowed : (e : Event) (b : Bar) → allowed e b ≡ true → step e b ≡ handle e b
unfolding step
step-allowed e b h = rw h refl

Pause-from :
    (e : Event) (b c : Bar) (queued : List PendingChange)
    → allowed e b ≡ true
    → Pause (step e b) queued c
    → IsPaused (handle e b) queued c
Pause-from e b c queued h p =
    subst (λ x. IsPaused x queued c) (step-allowed e b h) (Pause-IsPaused (step e b) queued c p)

-- The bar when the answer to a commit or a rollback has opened a window.
abbrev opened : PendingAction → Bool → Bar → ℕ → CommitResponse → Bar → Bar
opened commit also_save b now response c =
    commit_result true now response b.changes also_save (seconds b.safe_apply_input) c
opened rollback also_save b now response c =
    rollback_result true now response (rollback_confirm_seconds b.safe_apply_input) c

answer-opened :
    (action : PendingAction) (also_save : Bool) (b c : Bar) (queued : List PendingChange) (now : ℕ)
    (response : CommitResponse)
    → IsPaused (handle (click action also_save) b) queued c
    → response.pending_confirm ≡ true
    → step (answer now response) c ≡ opened action also_save b now response c
unfolding step allowed handle receive run_commit run_rollback start
answer-opened commit also_save b c queued now response p h =
    ap (λ f. receive f (fulfilled now response) c) p.awaited
    ∙ ap (λ w. commit_result w now response b.changes also_save (seconds b.safe_apply_input) c) h
answer-opened rollback also_save b c queued now response p h =
    ap (λ f. receive f (fulfilled now response) c) p.awaited
    ∙ ap (λ w. rollback_result w now response (rollback_confirm_seconds b.safe_apply_input) c) h

-- A commit and a rollback up to the open window: what stands in it after a pause.
record IsOpen (action : PendingAction) (also_save : Bool) (b : Bar) (queued : List PendingChange)
    (ends : ℕ) (c : Bar) : Type 0 where
  queue : c.changes ≡ b.changes ++ queued
  committed : c.committed_changes ≡ b.committed_changes
  idle_bar : c.busy ≡ false
  trial : c.pending_action ≡ action
  window : c.ends_at ≡ some ends

abbrev Opens :
    PendingAction → Bool → Bar → ℕ → CommitResponse → Bar → List PendingChange → Bar → Type 0
Opens action also_save b now response c queued d =
    IsPaused (opened action also_save b now response c) queued d

Pause-Opens :
    (action : PendingAction) (also_save : Bool) (b c : Bar)
    (before_answer since : List PendingChange) (now : ℕ) (response : CommitResponse) (d : Bar)
    → IsPaused (handle (click action also_save) b) before_answer c
    → response.pending_confirm ≡ true
    → Pause (step (answer now response) c) since d
    → Opens action also_save b now response c since d
Pause-Opens action also_save b c before_answer since now response d p h q =
    subst (λ x. IsPaused x since d)
      (answer-opened action also_save b c before_answer now response p h)
      (Pause-IsPaused (step (answer now response) c) since d q)

Opens-IsOpen :
    (action : PendingAction) (also_save : Bool) (b c d : Bar)
    (before_answer since : List PendingChange) (now : ℕ) (response : CommitResponse)
    → IsPaused (handle (click action also_save) b) before_answer c
    → Opens action also_save b now response c since d
    → IsOpen action also_save b
        (before_answer ++ since)
        (deadline now response (asked action b.safe_apply_input))
        d
unfolding handle run_commit run_rollback start commit_result rollback_result confirm_start finish
Opens-IsOpen commit also_save b c d before_answer since now response p q = record {
  queue = q.queue ∙ ap (λ l. l ++ since) p.queue ∙ append_assoc b.changes before_answer since;
  committed = q.committed ∙ p.committed;
  idle_bar = q.working;
  trial = q.trial;
  window = q.window;
}
Opens-IsOpen rollback also_save b c d before_answer since now response p q = record {
  queue = q.queue ∙ ap (λ l. l ++ since) p.queue ∙ append_assoc b.changes before_answer since;
  committed = q.committed ∙ p.committed;
  idle_bar = q.working;
  trial = q.trial;
  window = q.window;
}

-- "Keep changes" can be clicked while the window is open and no request is in flight.
keep-allowed :
    (c : Bar) (ends : ℕ) → c.ends_at ≡ some ends → c.busy ≡ false → allowed click_keep c ≡ true
unfolding allowed
keep-allowed c ends o h = let shown = open-confirm_panel c (ap is_some o) in ground arith

after_keep-lists :
    (also_save : Bool) (b : Bar)
    → ((after_keep also_save b).changes ≡ b.changes)
      × ((after_keep also_save b).committed_changes ≡ b.committed_changes)
unfolding after_keep finish_keep finish
after_keep-lists true b = (refl, refl)
after_keep-lists false b = (refl, refl)

keep_result-IsCommitted :
    (also_save : Bool) (b c : Bar) (queued : List PendingChange)
    → c.changes ≡ b.changes ++ queued
    → c.committed_changes ≡ b.committed_changes
    → Fresh (ids b.changes) queued
    → IsCommitted queued b (keep_result commit b.changes also_save c)
unfolding keep_result settle confirm_stop mark_committed
keep_result-IsCommitted also_save b c queued q k fresh =
    let (changes, committed) = after_keep-lists also_save (settle b.changes (confirm_stop c)) in
    (
      changes ∙ ap (remove_many (ids b.changes)) q ∙ remove_many-committed b.changes queued fresh,
      committed ∙ ap (λ l. l ++ b.changes) k,
    )

-- A commit whose answer opens a confirm window and that is kept: at the end, the changes that were
-- queued when the commit button was clicked are appended to the committed ones, and exactly those
-- queued since stay pending, in their order: those before the answer, those while the window was
-- open and those while "Keep changes" was on its way. Meanwhile the clock ticks and the fields of
-- "Safe apply" are edited at will, no other button is clicked, and the window does not run out. Each
-- later change is a new entry, whose id none of the committed changes has.
pub kept-IsCommitted :
    (also_save : Bool) (b c d e : Bar) (before_answer while_open while_keeping : List PendingChange)
    (now : ℕ) (response : CommitResponse) (later : ℕ) (confirmed : CommitResponse)
    → can_commit b ≡ true
    → Pause (step (click_commit also_save) b) before_answer c
    → response.pending_confirm ≡ true
    → Pause (step (answer now response) c) while_open d
    → Pause (step click_keep d) while_keeping e
    → Fresh (ids b.changes) ((before_answer ++ while_open) ++ while_keeping)
    → IsCommitted
        ((before_answer ++ while_open) ++ while_keeping)
        b
        (step (answer later confirmed) e)
unfolding step allowed handle receive run_commit handle_keep start commit_result confirm_start
    finish
kept-IsCommitted also_save b c d e before_answer while_open while_keeping now response later
      confirmed can p h q r fresh =
    let clicked = Pause-from (click_commit also_save) b c before_answer can p in
    let trial =
      Pause-Opens commit also_save b c before_answer while_open now response d clicked h q in
    let shown =
      Opens-IsOpen commit also_save b c d before_answer while_open now response clicked trial in
    let kept =
      Pause-from click_keep d e while_keeping (keep-allowed d _ shown.window shown.idle_bar) r in
    let awaited : e.flight ≡ keeping commit b.changes also_save =
      kept.awaited ∙ (λ i. keeping (trial.trial i) (trial.batch i) (trial.save_after i)) in
    subst
      (λ f.
        IsCommitted ((before_answer ++ while_open) ++ while_keeping) b
          (receive f (fulfilled later confirmed) e))
      (sym awaited)
      (keep_result-IsCommitted also_save b e ((before_answer ++ while_open) ++ while_keeping)
        (kept.queue
          ∙ ap (λ l. l ++ while_keeping) shown.queue
          ∙ append_assoc b.changes (before_answer ++ while_open) while_keeping)
        (kept.committed ∙ shown.committed) fresh)

-- The messages when a window has run out.
abbrev pub reverted_text : PendingAction → String
reverted_text commit =
    "The confirm window ran out, so VyOS reverted the commit. Your changes are still pending."
reverted_text rollback =
    "The confirm window ran out, so VyOS reverted the rollback and your committed changes are live again."

-- What a window that has run out leaves.
abbrev pub HasReverted : PendingAction → List PendingChange → Bar → Bar → Type 0
HasReverted action queued b ended =
    (ended.ends_at ≡ none)
    × (ended.changes ≡ b.changes ++ queued)
    × (ended.committed_changes ≡ b.committed_changes)
    × (ended.save_after_confirm ≡ false)
    × (ended.error ≡ some (reverted_text action))

expiry_message-reverted_text :
    (action : PendingAction) → expiry_message action ≡ reverted_text action
unfolding expiry_message
expiry_message-reverted_text commit = refl
expiry_message-reverted_text rollback = refl

tick_at-late : (b : Bar) (now ends : ℕ) → ends ≤ now → tick_at now (some ends) b ≡ expire b
unfolding tick_at
tick_at-late b now ends h =
    let e : leb (whole_seconds (ends - now)) 0 ≡ true = ground arith in rw e refl

-- A commit or a rollback whose answer opens a confirm window that runs out: the first tick at or
-- after its end closes it and says of the one that was clicked that VyOS has reverted it. The queue is
-- still the one of the click, with what was queued since behind it, as the message says of a commit,
-- nothing is added to the committed changes or taken from them, and no save is left over from "Commit & Save".
-- Meanwhile the clock ticks and the fields of "Safe apply" are edited at will, and no other button is
-- clicked. Each later change is a new entry.
pub window-HasReverted :
    (action : PendingAction) (also_save : Bool) (b c d : Bar)
    (before_answer while_open : List PendingChange) (now : ℕ) (response : CommitResponse) (time : ℕ)
    → allowed (click action also_save) b ≡ true
    → Pause (step (click action also_save) b) before_answer c
    → response.pending_confirm ≡ true
    → Pause (step (answer now response) c) while_open d
    → deadline now response (asked action b.safe_apply_input) ≤ time
    → HasReverted action (before_answer ++ while_open) b (step (clock time) d)
unfolding step allowed handle tick expire set_error confirm_stop
window-HasReverted action also_save b c d before_answer while_open now response time can p h q
      late =
    let clicked = Pause-from (click action also_save) b c before_answer can p in
    let trial =
      Pause-Opens action also_save b c before_answer while_open now response d clicked h q in
    let shown =
      Opens-IsOpen action also_save b c d before_answer while_open now response clicked trial in
    let expired : tick_at time d.ends_at d ≡ expire d =
      ap (λ o. tick_at time o d) shown.window ∙ tick_at-late d time _ late in
    subst (HasReverted action (before_answer ++ while_open) b) (sym expired) (
      refl,
      shown.queue,
      shown.committed,
      refl,
      ap some (ap expiry_message shown.trial ∙ expiry_message-reverted_text action),
    )
