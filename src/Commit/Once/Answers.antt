-- ===== src/Commit/Once/Answers.antt =====
-- components/PendingChangesBar.tsx: the answers to requests and the clock keep the bar's invariant.
use vyos_client.Base.{
  ℕ, ◌-◌, String, Bool, true, false, ◌≡◌, refl, ap, ◌∙◌, List, [], ◌++◌, Option, none, some,
  Bool-cases, inl, inr, leb,
}
use vyos_client.Store.Pending.{PendingChange}
use vyos_client.Store.Unsaved.{mark_committed, mark_saved}
use vyos_client.Commit.{
  PendingAction, commit, rollback, CommitResponse, Flight, idle, committing, saving_after_commit,
  keeping, saving_after_keep, saving, rolling_back, Bar,
}
use vyos_client.Commit.Handlers.{
  finish, finish_keep, set_error, confirm_start, confirm_stop, settle, saved, after_commit,
  commit_result, commit_failed, after_keep, keep_result, keep_failed, save_failed, rollback_result,
  rollback_failed, receive, expire, tick_at, Reply, fulfilled, rejected, whole_seconds,
}
use vyos_client.Commit.Lists.{Unique-append}
use vyos_client.Commit.Once.Orderly.{
  owed, on_trial, is_flying, IsAlone, AreNew, IsOrderly, AreNew-nil, AreNew-remove_many, OwesNone,
  idle-OwesNone, trial_closed,
}

-- Whatever a handler's end does to the fields that play no part here.
pub rest-IsOrderly :
    (b : Bar) (error : Option String) (save : Bool)
    → IsOrderly b
    → IsOrderly (record b { error = error; save_after_confirm = save; busy = false; flight = idle })
rest-IsOrderly b error save o = record {
  queue = o.queue;
  committed = o.committed;
  in_flight = (tt, tt);
  trial = o.trial;
  alone = tt;
  waiting = refl;
}

-- Nothing is committed and not saved any more.
pub none-IsOrderly :
    (b : Bar) (ends : Option ℕ) (save : Bool)
    → AreNew [] (on_trial ends b.pending_action b.pending_commit_changes)
    → IsOrderly b
    → IsOrderly (record b {
      committed_changes = [];
      ends_at = ends;
      save_after_confirm = save;
      busy = false;
      flight = idle;
    })
none-IsOrderly b ends save t o = record {
  queue = AreNew-nil b.committed_changes b.changes o.queue;
  committed = tt;
  in_flight = (tt, tt);
  trial = t;
  alone = tt;
  waiting = refl;
}

-- The batch moves from the queue to the committed changes.
pub settle-IsOrderly :
    (batch : List PendingChange) (b : Bar) (f : Flight) (ends : Option ℕ) (busy save : Bool)
    → ends ≡ none
    → OwesNone f
    → busy ≡ is_flying f
    → AreNew b.committed_changes batch
    → IsOrderly b
    → IsOrderly (record (settle batch b) {
      busy = busy;
      flight = f;
      ends_at = ends;
      save_after_confirm = save;
    })
unfolding settle mark_committed
settle-IsOrderly batch b f ends busy save closed owes w n o =
    let known = b.committed_changes ++ batch in
    record {
      queue = AreNew-remove_many b.committed_changes batch b.changes o.queue;
      committed = Unique-append b.committed_changes batch o.committed n.0 n.1;
      in_flight = owes.0 known;
      trial = trial_closed known b.pending_commit_changes ends b.pending_action closed;
      alone = owes.1 ends;
      waiting = w;
    }

pub after_commit-IsOrderly :
    (also_save : Bool) (batch : List PendingChange) (b : Bar)
    → b.ends_at ≡ none
    → b.busy ≡ true
    → AreNew b.committed_changes batch
    → IsOrderly b
    → IsOrderly (after_commit also_save (settle batch b))
unfolding after_commit finish settle
after_commit-IsOrderly true batch b closed w n o =
    settle-IsOrderly batch b saving_after_commit b.ends_at b.busy b.save_after_confirm closed
      ((λ known. (tt, tt)), (λ ends. tt)) w n o
after_commit-IsOrderly false batch b closed w n o =
    settle-IsOrderly batch b idle b.ends_at false b.save_after_confirm closed idle-OwesNone refl n o

pub commit_result-IsOrderly :
    (pending : Bool) (now : ℕ) (response : CommitResponse) (batch : List PendingChange)
    (also_save : Bool) (s : ℕ) (b : Bar)
    → b.ends_at ≡ none
    → b.busy ≡ true
    → AreNew b.committed_changes batch
    → IsOrderly b
    → IsOrderly (commit_result pending now response batch also_save s b)
unfolding commit_result confirm_start finish
commit_result-IsOrderly true now response batch also_save s b closed w n o = record {
  queue = o.queue;
  committed = o.committed;
  in_flight = (tt, tt);
  trial = n;
  alone = tt;
  waiting = refl;
}
commit_result-IsOrderly false now response batch also_save s b closed w n o =
    after_commit-IsOrderly also_save batch b closed w n o

pub keep_result-IsOrderly :
    (action : PendingAction) (batch : List PendingChange) (also_save : Bool) (b : Bar)
    → b.busy ≡ true
    → AreNew b.committed_changes (owed (keeping action batch also_save))
    → IsOrderly b
    → IsOrderly (keep_result action batch also_save b)
unfolding keep_result after_keep finish_keep finish confirm_stop saved mark_saved settle
keep_result-IsOrderly rollback batch also_save b w n o = none-IsOrderly b none false (tt, tt) o
keep_result-IsOrderly commit batch true b w n o =
    settle-IsOrderly batch b saving_after_keep none b.busy b.save_after_confirm refl
      ((λ known. (tt, tt)), (λ ends. tt)) w n o
keep_result-IsOrderly commit batch false b w n o =
    settle-IsOrderly batch b idle none false false refl idle-OwesNone refl n o

-- The trial of the open window is still new once nothing is committed.
pub saved-IsOrderly :
    (b : Bar) (save : Bool)
    → IsOrderly b
    → IsOrderly (record b {
      committed_changes = [];
      save_after_confirm = save;
      busy = false;
      flight = idle;
    })
saved-IsOrderly b save o =
    none-IsOrderly b b.ends_at save
      (AreNew-nil b.committed_changes (on_trial b.ends_at b.pending_action b.pending_commit_changes)
        o.trial)
      o

pub rollback_result-IsOrderly :
    (pending : Bool) (now : ℕ) (response : CommitResponse) (s : ℕ) (b : Bar)
    → IsOrderly b
    → IsOrderly (rollback_result pending now response s b)
unfolding rollback_result confirm_start finish saved mark_saved
rollback_result-IsOrderly true now response s b o = record {
  queue = o.queue;
  committed = o.committed;
  in_flight = (tt, tt);
  trial = (tt, tt);
  alone = tt;
  waiting = refl;
}
rollback_result-IsOrderly false now response s b o = saved-IsOrderly b b.save_after_confirm o

pub IsAlone-none : (f : Flight) → IsAlone f none
IsAlone-none (committing batch also_save safe_apply s) = refl
IsAlone-none idle = tt
IsAlone-none saving_after_commit = tt
IsAlone-none (keeping action batch also_save) = tt
IsAlone-none saving_after_keep = tt
IsAlone-none saving = tt
IsAlone-none (rolling_back s) = tt

-- The handler that awaits `f` goes on: its busy mark is set, and what it owes is new.
pub receive-IsOrderly :
    (f : Flight) (r : Reply) (b : Bar) → b.flight ≡ f → IsOrderly b → IsOrderly (receive f r b)
unfolding receive finish finish_keep saved mark_saved set_error commit_failed keep_failed
    save_failed rollback_failed
receive-IsOrderly idle r b e o = o
receive-IsOrderly (committing batch also_save safe_apply s) (fulfilled now response) b e o =
    commit_result-IsOrderly response.pending_confirm now response batch also_save s b
      (rw e at o.alone) (o.waiting ∙ ap is_flying e) (rw e at o.in_flight) o
receive-IsOrderly (committing batch also_save safe_apply s) (rejected f) b e o =
    rest-IsOrderly b _ b.save_after_confirm o
receive-IsOrderly saving_after_commit (fulfilled now response) b e o =
    saved-IsOrderly b b.save_after_confirm o
receive-IsOrderly saving_after_commit (rejected f) b e o = rest-IsOrderly b _ b.save_after_confirm o
receive-IsOrderly (keeping action batch also_save) (fulfilled now response) b e o =
    keep_result-IsOrderly action batch also_save b (o.waiting ∙ ap is_flying e)
      (rw e at o.in_flight) o
receive-IsOrderly (keeping action batch also_save) (rejected f) b e o = rest-IsOrderly b _ false o
receive-IsOrderly saving_after_keep (fulfilled now response) b e o = saved-IsOrderly b false o
receive-IsOrderly saving_after_keep (rejected f) b e o = rest-IsOrderly b _ false o
receive-IsOrderly saving (fulfilled now response) b e o = saved-IsOrderly b b.save_after_confirm o
receive-IsOrderly saving (rejected f) b e o = rest-IsOrderly b _ b.save_after_confirm o
receive-IsOrderly (rolling_back s) (fulfilled now response) b e o =
    rollback_result-IsOrderly response.pending_confirm now response s b o
receive-IsOrderly (rolling_back s) (rejected f) b e o = rest-IsOrderly b _ b.save_after_confirm o

pub expire-IsOrderly : (b : Bar) → IsOrderly b → IsOrderly (expire b)
unfolding expire set_error confirm_stop
expire-IsOrderly b o = record {
  queue = o.queue;
  committed = o.committed;
  in_flight = o.in_flight;
  trial = (tt, tt);
  alone = IsAlone-none b.flight;
  waiting = o.waiting;
}

pub tick_at-IsOrderly :
    (now : ℕ) (ends : Option ℕ) (b : Bar) → IsOrderly b → IsOrderly (tick_at now ends b)
unfolding tick_at
tick_at-IsOrderly now none b o = o
tick_at-IsOrderly now (some ends) b o = elim (Bool-cases (leb (whole_seconds (ends - now)) 0)) [
  | inl h ↦ rw h (expire-IsOrderly b o)
  | inr h ↦ rw h record {
    queue = o.queue;
    committed = o.committed;
    in_flight = o.in_flight;
    trial = o.trial;
    alone = o.alone;
    waiting = o.waiting;
  }
]
