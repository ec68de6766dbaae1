-- ===== src/Commit/Life.antt =====
-- components/PendingChangesBar.tsx: the life of one change. It waits in the queue, is live on the
-- router without being saved, and is then settled. The bar with all its interleavings implements this
-- machine of three stages for every change at once.
mod Membership
use vyos_client.Base.{
  ℕ, String, Bool, true, false, not, ◌&&◌, ◌||◌, ◌≡◌, refl, sym, List, [], ◌∷◌, ◌++◌, Option, none,
  some, Bool-cases, inl, inr, leb, ◌-◌, ◌==◌, if◌then◌else◌, eq_iff, arith,
}
use mathlib.Core.List.{Sublistᴰ}
use vyos_client.Store.Pending.{PendingChange, NewChange, add, remove, remove_many, clear}
use vyos_client.Store.Pending.Removal.{ids}
use vyos_client.Store.Unsaved.{mark_committed, mark_saved}
use vyos_client.Commit.{
  PendingAction, commit, rollback, CommitResponse, Flight, idle, committing, saving_after_commit,
  keeping, saving_after_keep, saving, rolling_back, Bar,
}
use vyos_client.Commit.Handlers.{
  start, finish, finish_keep, set_error, confirm_start, confirm_stop, settle, saved, run_commit,
  after_commit, commit_result, commit_failed, handle_keep, after_keep, keep_result, keep_failed,
  handle_standalone_save, save_failed, run_rollback, rollback_result, rollback_failed, receive,
  expire, tick, tick_at, Reply, fulfilled, rejected, whole_seconds,
}
use vyos_client.Commit.Steps.{
  Event, queue_change, discard_change, click_discard, click_commit, click_keep, click_save,
  click_rollback, click_mark_as_saved, click_dismiss, toggle_safe_apply, edit_seconds,
  default_arrives, reply, clock, allowed, handle, step, Reachable,
}
use vyos_client.Commit.Lists.{Sublist-select, Added, fewer, appended, add-Added}
use vyos_client.Commit.Once.Orderly.{IsOrderly}
use vyos_client.Commit.Once.{Reachable-IsOrderly}
use Membership.{has, has-append, has-Sublist, has-remove_many, apart-has}

pub data Stage : Type 0 where
  gone pending live : Stage

abbrev pub stage_of : Bool → Bool → Stage
stage_of true queued = live
stage_of false true = pending
stage_of false false = gone

-- Where the change with this id is.
unfoldable pub stage : String → Bar → Stage
unfolding has
stage id b = stage_of (has id b.committed_changes) (has id b.changes)

-- The steps of one change: each stage is left only by the events named here.
pub data Moves (id : String) : Event → Stage → Stage → Type 0 where
  stays : (e : Event) (s : Stage) → Moves id e s s
  queued : (change : NewChange) → Moves id (queue_change id change) gone pending
  cancelled :
      (other : String) (change : NewChange) → Moves id (queue_change other change) pending gone
  discarded : (other : String) → Moves id (discard_change other) pending gone
  cleared : Moves id click_discard pending gone
  applied :
      (now : ℕ) (response : CommitResponse) → Moves id (reply (fulfilled now response)) pending live
  applied_late :
      (now : ℕ) (response : CommitResponse) → Moves id (reply (fulfilled now response)) gone live
  persisted :
      (now : ℕ) (response : CommitResponse) → Moves id (reply (fulfilled now response)) live gone
  marked : Moves id click_mark_as_saved live gone

module _ (id : String) where
  -- The queue may lose the change.
  fewer-Moves :
      (e : Event) (c q r : Bool)
      → Moves id e pending gone
      → (r ≡ true → q ≡ true)
      → Moves id e (stage_of c q) (stage_of c r)
  fewer-Moves e true q r m h = stays e live
  fewer-Moves e false true true m h = stays e pending
  fewer-Moves e false true false m h = m
  fewer-Moves e false false true m h = let k : false ≡ true = h refl in cc
  fewer-Moves e false false false m h = stays e gone

  -- The committed changes are settled, the queued ones are not among them.
  settled-Moves :
      (e : Event) (c q : Bool)
      → Moves id e live gone
      → (c ≡ true → q ≡ false)
      → Moves id e (stage_of c q) (stage_of false q)
  settled-Moves e true true m h = let k : true ≡ false = h refl in cc
  settled-Moves e true false m h = m
  settled-Moves e false q m h = stays e (stage_of false q)

  -- A batch goes live.
  batch-Moves :
      (now : ℕ) (response : CommitResponse) (c q k : Bool)
      → Moves id (reply (fulfilled now response)) (stage_of c q) (stage_of (c || k) (q && not k))
  batch-Moves now response true q k = stays _ live
  batch-Moves now response false true true = applied now response
  batch-Moves now response false true false = stays _ pending
  batch-Moves now response false false true = applied_late now response
  batch-Moves now response false false false = stays _ gone

  settle-Moves :
      (now : ℕ) (response : CommitResponse) (batch : List PendingChange) (b : Bar)
      → Moves id (reply (fulfilled now response)) (stage id b) (stage id (settle batch b))
  unfolding stage settle mark_committed
  settle-Moves now response batch b =
      rw (has-append id b.committed_changes batch, has-remove_many id batch b.changes)
        (batch-Moves now response (has id b.committed_changes) (has id b.changes) (has id batch))

  -- What the ends of the handlers do to the fields beside the two lists is of no matter here.
  after_commit-stage :
      (also_save : Bool) (b : Bar) → stage id (after_commit also_save b) ≡ stage id b
  unfolding stage after_commit finish
  after_commit-stage true b = refl
  after_commit-stage false b = refl

  after_keep-stage : (also_save : Bool) (b : Bar) → stage id (after_keep also_save b) ≡ stage id b
  unfolding stage after_keep finish_keep finish
  after_keep-stage true b = refl
  after_keep-stage false b = refl

  commit_result-Moves :
      (pending : Bool) (now : ℕ) (response : CommitResponse) (batch : List PendingChange)
      (also_save : Bool) (s : ℕ) (b : Bar)
      → Moves id
          (reply (fulfilled now response))
          (stage id b)
          (stage id (commit_result pending now response batch also_save s b))
  unfolding stage commit_result confirm_start finish
  commit_result-Moves true now response batch also_save s b = stays _ (stage id b)
  commit_result-Moves false now response batch also_save s b =
      rw (after_commit-stage also_save (settle batch b)) (settle-Moves now response batch b)

  -- The apart lists of an orderly bar.
  saved-Moves :
      (e : Event) (b : Bar)
      → Moves id e live gone
      → IsOrderly b
      → Moves id e (stage id b) (stage id (saved b))
  unfolding stage saved mark_saved
  saved-Moves e b m o =
      settled-Moves e (has id b.committed_changes) (has id b.changes) m
        (apart-has id b.committed_changes b.changes o.queue.1)

  keep_result-Moves :
      (now : ℕ) (response : CommitResponse) (action : PendingAction) (batch : List PendingChange)
      (also_save : Bool) (b : Bar)
      → IsOrderly b
      → Moves id
          (reply (fulfilled now response))
          (stage id b)
          (stage id (keep_result action batch also_save b))
  unfolding stage keep_result finish_keep finish confirm_stop saved
  keep_result-Moves now response rollback batch also_save b o =
      saved-Moves (reply (fulfilled now response)) b (persisted now response) o
  keep_result-Moves now response commit batch also_save b o =
      rw (after_keep-stage also_save (settle batch (confirm_stop b)))
        (settle-Moves now response batch (confirm_stop b))

  rollback_result-Moves :
      (opens : Bool) (now : ℕ) (response : CommitResponse) (s : ℕ) (b : Bar)
      → IsOrderly b
      → Moves id
          (reply (fulfilled now response))
          (stage id b)
          (stage id (rollback_result opens now response s b))
  unfolding stage rollback_result confirm_start finish saved
  rollback_result-Moves true now response s b o = stays _ (stage id b)
  rollback_result-Moves false now response s b o =
      saved-Moves (reply (fulfilled now response)) b (persisted now response) o

  receive-Moves :
      (f : Flight) (r : Reply) (b : Bar)
      → IsOrderly b
      → Moves id (reply r) (stage id b) (stage id (receive f r b))
  unfolding stage receive commit_failed keep_failed save_failed rollback_failed finish finish_keep
      set_error saved
  receive-Moves idle r b o = stays _ (stage id b)
  receive-Moves (committing batch also_save safe_apply s) (fulfilled now response) b o =
      commit_result-Moves response.pending_confirm now response batch also_save s b
  receive-Moves (committing batch also_save safe_apply s) (rejected f) b o = stays _ (stage id b)
  receive-Moves saving_after_commit (fulfilled now response) b o =
      saved-Moves (reply (fulfilled now response)) b (persisted now response) o
  receive-Moves saving_after_commit (rejected f) b o = stays _ (stage id b)
  receive-Moves (keeping action batch also_save) (fulfilled now response) b o =
      keep_result-Moves now response action batch also_save b o
  receive-Moves (keeping action batch also_save) (rejected f) b o = stays _ (stage id b)
  receive-Moves saving_after_keep (fulfilled now response) b o =
      saved-Moves (reply (fulfilled now response)) b (persisted now response) o
  receive-Moves saving_after_keep (rejected f) b o = stays _ (stage id b)
  receive-Moves saving (fulfilled now response) b o =
      saved-Moves (reply (fulfilled now response)) b (persisted now response) o
  receive-Moves saving (rejected f) b o = stays _ (stage id b)
  receive-Moves (rolling_back s) (fulfilled now response) b o =
      rollback_result-Moves response.pending_confirm now response s b o
  receive-Moves (rolling_back s) (rejected f) b o = stays _ (stage id b)

  clock-Moves :
      (now : ℕ) (ends : Option ℕ) (b : Bar)
      → Moves id (clock now) (stage id b) (stage id (tick_at now ends b))
  unfolding stage tick_at expire set_error confirm_stop
  clock-Moves now none b = stays _ (stage id b)
  clock-Moves now (some ends) b = elim (Bool-cases (leb (whole_seconds (ends - now)) 0)) [
    | inl h ↦ rw h (stays _ (stage id b))
    | inr h ↦ rw h (stays _ (stage id b))
  ]

  -- A new entry puts the change with its id in the queue.
  appended-Moves :
      (other : String) (change : NewChange) (c q : Bool)
      → Moves id
          (queue_change other change)
          (stage_of c q)
          (stage_of c (q || ((other == id) || false)))
  appended-Moves other change true q = stays _ live
  appended-Moves other change false true = stays _ pending
  appended-Moves other change false false = elim (Bool-cases (other == id)) [
    | inl h ↦ let e : id ≡ other = ground (arith, eq_iff other id) in rw h (rw e (queued change))
    | inr h ↦ rw h (stays _ gone)
  ]

  queue-Moves :
      (other : String) (change : NewChange) (b : Bar) (ys : List PendingChange)
      → Added other change b.changes ys
      → Moves id (queue_change other change) (stage id b) (stage id (record b { changes = ys }))
  unfolding stage
  queue-Moves other change b ys (fewer zs s) =
      fewer-Moves (queue_change other change) (has id b.committed_changes) (has id b.changes)
        (has id ys) (cancelled other change) (has-Sublist id s)
  queue-Moves other change b ys appended =
      let c : PendingChange = record { id = other; op = change.op; label = change.label } in
      rw (has-append id b.changes (c ∷ []), has)
        (appended-Moves other change (has id b.committed_changes) (has id b.changes))

  handle-Moves :
      (e : Event) (b : Bar) → IsOrderly b → Moves id e (stage id b) (stage id (handle e b))
  unfolding stage handle remove clear start run_commit handle_keep handle_standalone_save
      run_rollback tick has
  handle-Moves (queue_change other change) b o =
      queue-Moves other change b (add other change b.changes) (add-Added other change b.changes)
  handle-Moves (discard_change other) b o =
      fewer-Moves (discard_change other) (has id b.committed_changes) (has id b.changes)
        (has id (remove other b.changes)) (discarded other)
        (has-Sublist id (Sublist-select (λ c. not (c.id == other)) b.changes))
  handle-Moves click_discard b o =
      fewer-Moves click_discard (has id b.committed_changes) (has id b.changes) false cleared
        (λ h. let k : false ≡ true = h in cc)
  handle-Moves (click_commit also_save) b o = stays _ (stage id b)
  handle-Moves click_keep b o = stays _ (stage id b)
  handle-Moves click_save b o = stays _ (stage id b)
  handle-Moves click_rollback b o = stays _ (stage id b)
  handle-Moves click_mark_as_saved b o = saved-Moves click_mark_as_saved b marked o
  handle-Moves click_dismiss b o = stays _ (stage id b)
  handle-Moves (toggle_safe_apply on) b o = stays _ (stage id b)
  handle-Moves (edit_seconds n) b o = stays _ (stage id b)
  handle-Moves (default_arrives n) b o = stays _ (stage id b)
  handle-Moves (reply r) b o = receive-Moves b.flight r b o
  handle-Moves (clock now) b o = clock-Moves now b.ends_at b

-- In every state that the bar reaches, every event takes every change along a step of its life: a
-- change enters the queue only by being queued, leaves it only by being discarded, cancelled by a
-- later one or applied by an answer, and stops being unsaved only by an answer or by "Mark as saved".
-- No request that fails and no clock loses a change, and none that is live becomes pending again.
pub step-Moves :
    (id : String) (b : Bar) (e : Event)
    → Reachable b
    → Moves id e (stage id b) (stage id (step e b))
unfolding step
step-Moves id b e h = elim (Bool-cases (allowed e b)) [
  | inl a ↦ rw a (handle-Moves id e b (Reachable-IsOrderly b h))
  | inr a ↦ rw a (stays e (stage id b))
]
