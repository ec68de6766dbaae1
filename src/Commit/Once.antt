-- ===== src/Commit/Once.antt =====
-- components/PendingChangesBar.tsx: no change is committed twice, and none is both pending and
-- committed, whatever happens in whichever order.
pub mod Orderly
pub mod Answers
use vyos_client.Base.{
  select-passes, ℕ, ◌-◌, String, Bool, true, false, not, ◌≡◌, refl, sym, ap, ◌∙◌, List, [], ◌∷◌,
  ◌++◌, Option, none, some, any, select, All, All-append, All-zip, All-map, Bool-cases, inl, inr,
  arith, leb, if◌then◌else◌, ◌==◌,
}
use mathlib.Core.List.{Sublistᴰ}
use vyos_client.Store.Pending.{PendingChange, NewChange, add, remove, remove_many, clear}
use vyos_client.Store.Pending.Removal.{ids}
use vyos_client.Store.Unsaved.{mark_committed, mark_saved}
use vyos_client.Commit.{
  PendingAction, commit, rollback, CommitResponse, Flight, idle, committing, saving_after_commit,
  keeping, saving_after_keep, saving, rolling_back, Bar, is_some, SafeApplyInput,
}
use vyos_client.Commit.Guards.{can_commit-parts, pending_bar-closed, confirm_panel-open}
use vyos_client.Commit.Handlers.{
  start, finish, finish_keep, set_error, confirm_start, confirm_stop, settle, saved, run_commit,
  after_commit, commit_result, commit_failed, handle_keep, after_keep, keep_result, keep_failed,
  handle_standalone_save, save_failed, run_rollback, rollback_result, rollback_failed, receive,
  expire, tick_at, Reply, fulfilled, rejected, whole_seconds,
}
use vyos_client.Commit.Steps.{
  Event, queue_change, discard_change, click_discard, click_commit, click_keep, click_save,
  click_rollback, click_mark_as_saved, click_dismiss, toggle_safe_apply, edit_seconds,
  default_arrives, reply, clock, allowed, handle, step, Absent, Happens, Reachable, at_first, after,
}
use vyos_client.Commit.Lists.{
  Unique, Absent-append, Unique-append, Unique-Sublist, All-Sublist, Sublist-select, Added, fewer,
  appended, add-Added,
}
use vyos_client.Commit.Once.Orderly.{
  owed, on_trial, is_flying, IsAlone, AreNew, IsOrderly, AreNew-Sublist, AreNew-nil, Absent-not,
  AreNew-remove_many, AreNew-add, OwesNone, idle-OwesNone, trial_closed, start-IsOrderly,
}
use vyos_client.Commit.Once.Answers.{
  rest-IsOrderly, none-IsOrderly, settle-IsOrderly, after_commit-IsOrderly, commit_result-IsOrderly,
  keep_result-IsOrderly, saved-IsOrderly, rollback_result-IsOrderly, IsAlone-none,
  receive-IsOrderly, expire-IsOrderly, tick_at-IsOrderly,
}

-- The queue changes, and no other part that matters.
queue-IsOrderly :
    (b : Bar) (changes : List PendingChange)
    → AreNew b.committed_changes changes
    → IsOrderly b
    → IsOrderly (record b { changes = changes })
queue-IsOrderly b changes n o = record {
  queue = n;
  committed = o.committed;
  in_flight = o.in_flight;
  trial = o.trial;
  alone = o.alone;
  waiting = o.waiting;
}

-- A field changes that plays no part here.
error-IsOrderly :
    (b : Bar) (error : Option String) (i : SafeApplyInput)
    → IsOrderly b
    → IsOrderly (record b { error = error; safe_apply_input = i })
error-IsOrderly b error i o = record {
  queue = o.queue;
  committed = o.committed;
  in_flight = o.in_flight;
  trial = o.trial;
  alone = o.alone;
  waiting = o.waiting;
}

-- "Mark as saved" can be clicked while a request is in flight.
mark-IsOrderly : (b : Bar) → IsOrderly b → IsOrderly (saved b)
unfolding saved mark_saved
mark-IsOrderly b o = record {
  queue = AreNew-nil b.committed_changes b.changes o.queue;
  committed = tt;
  in_flight = AreNew-nil b.committed_changes (owed b.flight) o.in_flight;
  trial =
      AreNew-nil b.committed_changes (on_trial b.ends_at b.pending_action b.pending_commit_changes)
        o.trial;
  alone = o.alone;
  waiting = o.waiting;
}

-- What the button "Keep" owes is what the open window has on trial.
keep-AreNew :
    (known batch : List PendingChange) (ends : Option ℕ) (action : PendingAction) (also_save : Bool)
    → is_some ends ≡ true
    → AreNew known (on_trial ends action batch)
    → AreNew known (owed (keeping action batch also_save))
keep-AreNew known batch none action also_save h n = cc
keep-AreNew known batch (some ends) commit also_save h n = n
keep-AreNew known batch (some ends) rollback also_save h n = (tt, tt)

handle-IsOrderly :
    (e : Event) (b : Bar) → allowed e b ≡ true → Happens e b → IsOrderly b → IsOrderly (handle e b)
unfolding handle allowed run_commit handle_keep handle_standalone_save run_rollback remove clear
handle-IsOrderly (queue_change id change) b h (p, q) o =
    queue-IsOrderly b (add id change b.changes)
      (AreNew-add b.committed_changes b.changes id change p q o.queue) o
handle-IsOrderly (discard_change id) b h _ o =
    queue-IsOrderly b (remove id b.changes)
      (AreNew-Sublist b.committed_changes (Sublist-select (λ c. not (c.id == id)) b.changes)
        o.queue)
      o
handle-IsOrderly click_discard b h _ o = queue-IsOrderly b [] (tt, tt) o
handle-IsOrderly (click_commit also_save) b h _ o =
    let (shown, _, _, _) = can_commit-parts b h in
    start-IsOrderly (committing b.changes also_save b.safe_apply_input.enabled _) b o.queue
      (pending_bar-closed b shown).0 refl o
handle-IsOrderly click_keep b h _ o =
    start-IsOrderly (keeping b.pending_action b.pending_commit_changes b.save_after_confirm) b
      (keep-AreNew b.committed_changes b.pending_commit_changes b.ends_at b.pending_action
        b.save_after_confirm (confirm_panel-open b (ground arith)) o.trial)
      tt refl o
handle-IsOrderly click_save b h _ o = start-IsOrderly saving b (tt, tt) tt refl o
handle-IsOrderly click_rollback b h _ o = start-IsOrderly (rolling_back _) b (tt, tt) tt refl o
handle-IsOrderly click_mark_as_saved b h _ o = mark-IsOrderly b o
handle-IsOrderly click_dismiss b h _ o = error-IsOrderly b none b.safe_apply_input o
handle-IsOrderly (toggle_safe_apply on) b h _ o = error-IsOrderly b b.error _ o
handle-IsOrderly (edit_seconds n) b h _ o = error-IsOrderly b b.error _ o
handle-IsOrderly (default_arrives n) b h _ o = error-IsOrderly b b.error _ o
handle-IsOrderly (reply r) b h _ o = receive-IsOrderly b.flight r b refl o
handle-IsOrderly (clock now) b h _ o = tick_at-IsOrderly now b.ends_at b o

step-IsOrderly : (e : Event) (b : Bar) → Happens e b → IsOrderly b → IsOrderly (step e b)
unfolding step
step-IsOrderly e b h o = go (allowed e b) refl
  where
    go : (a : Bool) → allowed e b ≡ a → IsOrderly (if a then handle e b else b)
    go true k = handle-IsOrderly e b k h o
    go false k = o

-- Whatever happens to the bar, in any order: the committed changes are distinct, none of them is
-- still pending, a commit is only sent while no confirm window is open, and the bar is busy exactly
-- while a request is in flight. New changes are assumed to have ids that no queued or committed
-- change has.
pub Reachable-IsOrderly : (b : Bar) → Reachable b → IsOrderly b
Reachable-IsOrderly b at_first = record {
  queue = (tt, tt);
  committed = tt;
  in_flight = (tt, tt);
  trial = (tt, tt);
  alone = tt;
  waiting = refl;
}
Reachable-IsOrderly b (after c e r h) = step-IsOrderly e c h (Reachable-IsOrderly c r)
