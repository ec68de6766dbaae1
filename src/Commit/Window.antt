-- ===== src/Commit/Window.antt =====
-- components/PendingChangesBar.tsx and hooks/useConfirmCountdown.ts: the seconds of a confirm window,
-- requests that fail, and the end of every request.
use vyos_client.Base.{
  ℕ, ◌+◌, ◌-◌, ◌*◌, ◌≤◌, ◌<◌, Bool, true, false, ◌≡◌, refl, sym, ap, subst, ◌∙◌, List, some, inl,
  inr, ◌⊎◌, arith, leb,
}
use vyos_client.Store.Pending.{PendingChange}
use vyos_client.Commit.{
  PendingAction, commit, rollback, CommitResponse, Failure, Flight, idle, committing,
  saving_after_commit, keeping, saving_after_keep, saving, rolling_back, Bar,
}
use vyos_client.Commit.Handlers.{
  finish, finish_keep, set_error, confirm_stop, settle, after_commit, commit_result, commit_failed,
  after_keep, keep_result, keep_failed, save_failed, rollback_result, rollback_failed, receive,
  tick, tick_at, Reply, fulfilled, rejected, whole_seconds,
}
use vyos_client.Commit.Steps.{Reachable, step, reply, clock, allowed, handle}
use vyos_client.Commit.Once.Orderly.{is_flying, IsOrderly}
use vyos_client.Commit.Once.{Reachable-IsOrderly}

-- The window is open, and the seconds shown are the time left, rounded up.
abbrev pub Counts : ℕ → ℕ → Bar → Type 0
Counts now ends ended =
    (ended.ends_at ≡ some ends)
    × (ends ≤ now + ended.seconds_left * 1000)
    × (now + ended.seconds_left * 1000 < ends + 1000)

tick_at-early :
    (b : Bar) (now ends : ℕ)
    → b.ends_at ≡ some ends
    → now < ends
    → Counts now ends (tick_at now (some ends) b)
unfolding tick_at
tick_at-early b now ends o h =
    let e : leb (whole_seconds (ends - now)) 0 ≡ false = ground arith in
    rw e (o, omega arith, omega arith)

-- A tick before the end of an open window leaves it open, and the seconds shown are the time left,
-- rounded up.
pub clock-Counts :
    (b : Bar) (now ends : ℕ)
    → b.ends_at ≡ some ends
    → now < ends
    → Counts now ends (step (clock now) b)
unfolding step allowed handle tick
clock-Counts b now ends h early =
    subst (λ o. Counts now ends (tick_at now o b)) (sym h) (tick_at-early b now ends h early)

-- A request that fails, and a save that fails, leave the queue and the committed changes as they
-- were, whichever handler awaits.
pub receive-rejected :
    (f : Flight) (failure : Failure) (b : Bar)
    → ((receive f (rejected failure) b).changes ≡ b.changes)
      × ((receive f (rejected failure) b).committed_changes ≡ b.committed_changes)
unfolding receive commit_failed keep_failed save_failed rollback_failed finish finish_keep set_error
receive-rejected idle failure b = (refl, refl)
receive-rejected (committing batch also_save safe_apply s) failure b = (refl, refl)
receive-rejected saving_after_commit failure b = (refl, refl)
receive-rejected (keeping action batch also_save) failure b = (refl, refl)
receive-rejected saving_after_keep failure b = (refl, refl)
receive-rejected saving failure b = (refl, refl)
receive-rejected (rolling_back s) failure b = (refl, refl)

-- A request ends, or it was the first of the two of "Commit & Save".
abbrev IsNearEnd : Bar → Type 0
IsNearEnd b = (b.busy ≡ false) ⊎ ((b.flight ≡ saving_after_commit) ⊎ (b.flight ≡ saving_after_keep))

after_commit-IsNearEnd : (also_save : Bool) (b : Bar) → IsNearEnd (after_commit also_save b)
unfolding after_commit finish
after_commit-IsNearEnd true b = inr (inl refl)
after_commit-IsNearEnd false b = inl refl

after_keep-IsNearEnd : (also_save : Bool) (b : Bar) → IsNearEnd (after_keep also_save b)
unfolding after_keep finish_keep finish
after_keep-IsNearEnd true b = inr (inr refl)
after_keep-IsNearEnd false b = inl refl

commit_result-IsNearEnd :
    (pending : Bool) (now : ℕ) (response : CommitResponse) (batch : List PendingChange)
    (also_save : Bool) (s : ℕ) (b : Bar)
    → IsNearEnd (commit_result pending now response batch also_save s b)
unfolding commit_result finish
commit_result-IsNearEnd true now response batch also_save s b = inl refl
commit_result-IsNearEnd false now response batch also_save s b =
    after_commit-IsNearEnd also_save (settle batch b)

keep_result-IsNearEnd :
    (action : PendingAction) (batch : List PendingChange) (also_save : Bool) (b : Bar)
    → IsNearEnd (keep_result action batch also_save b)
unfolding keep_result finish_keep finish
keep_result-IsNearEnd rollback batch also_save b = inl refl
keep_result-IsNearEnd commit batch also_save b =
    after_keep-IsNearEnd also_save (settle batch (confirm_stop b))

rollback_result-busy :
    (pending : Bool) (now : ℕ) (response : CommitResponse) (s : ℕ) (b : Bar)
    → (rollback_result pending now response s b).busy ≡ false
unfolding rollback_result finish
rollback_result-busy true now response s b = refl
rollback_result-busy false now response s b = refl

receive-IsNearEnd :
    (f : Flight) (r : Reply) (b : Bar) → b.flight ≡ f → IsOrderly b → IsNearEnd (receive f r b)
unfolding receive commit_failed keep_failed save_failed rollback_failed finish finish_keep
receive-IsNearEnd idle r b e o = inl (o.waiting ∙ ap is_flying e)
receive-IsNearEnd (committing batch also_save safe_apply s) (fulfilled now response) b e o =
    commit_result-IsNearEnd response.pending_confirm now response batch also_save s b
receive-IsNearEnd (committing batch also_save safe_apply s) (rejected failure) b e o = inl refl
receive-IsNearEnd saving_after_commit (fulfilled now response) b e o = inl refl
receive-IsNearEnd saving_after_commit (rejected failure) b e o = inl refl
receive-IsNearEnd (keeping action batch also_save) (fulfilled now response) b e o =
    keep_result-IsNearEnd action batch also_save b
receive-IsNearEnd (keeping action batch also_save) (rejected failure) b e o = inl refl
receive-IsNearEnd saving_after_keep (fulfilled now response) b e o = inl refl
receive-IsNearEnd saving_after_keep (rejected failure) b e o = inl refl
receive-IsNearEnd saving (fulfilled now response) b e o = inl refl
receive-IsNearEnd saving (rejected failure) b e o = inl refl
receive-IsNearEnd (rolling_back s) (fulfilled now response) b e o =
    inl (rollback_result-busy response.pending_confirm now response s b)
receive-IsNearEnd (rolling_back s) (rejected failure) b e o = inl refl

not_flying : (f : Flight) → is_flying f ≡ false → f ≡ idle
not_flying idle h = refl
not_flying (committing batch also_save safe_apply s) h = cc
not_flying saving_after_commit h = cc
not_flying (keeping action batch also_save) h = cc
not_flying saving_after_keep h = cc
not_flying saving h = cc
not_flying (rolling_back s) h = cc

abbrev Ends : Reply → Bar → Flight → Type 0
Ends r b f = (receive f r b).busy ≡ false

save-Ends : (r : Reply) (b : Bar) → Ends r b saving_after_commit × Ends r b saving_after_keep
unfolding receive finish finish_keep
save-Ends (fulfilled now response) b = (refl, refl)
save-Ends (rejected failure) b = (refl, refl)

near_end-busy : (r : Reply) (b : Bar) → IsOrderly b → IsNearEnd b → Ends r b b.flight
unfolding receive
near_end-busy r b o (inl h) = subst (Ends r b) (sym (not_flying b.flight (sym o.waiting ∙ h))) h
near_end-busy r b o (inr (inl e)) = subst (Ends r b) (sym e) (save-Ends r b).0
near_end-busy r b o (inr (inr e)) = subst (Ends r b) (sym e) (save-Ends r b).1

-- The bar never stays busy: from every state that it reaches, after at most two answers, whatever
-- they are, no request is in flight and its buttons work again.
pub two_replies-busy :
    (b : Bar) (r s : Reply) → Reachable b → (step (reply s) (step (reply r) b)).busy ≡ false
unfolding step allowed handle
two_replies-busy b r s h =
    let c = step (reply r) b in
    near_end-busy s c (Reachable-IsOrderly c (Reachable.after b (reply r) h tt))
      (receive-IsNearEnd b.flight r b refl (Reachable-IsOrderly b h))
