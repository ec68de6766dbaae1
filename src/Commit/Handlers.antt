-- ===== src/Commit/Handlers.antt =====
-- components/PendingChangesBar.tsx: the bar's asynchronous handlers. Each is the step that it makes
-- when it is called and the step of each way in which its request ends.
use vyos_client.Base.{
  Option, ℕ, ◌+◌, ◌-◌, ◌*◌, ◌/◌, String, Bool, true, false, none, some, List, [], ◌∷◌, leb, or_else,
  if◌then◌else◌,
}
use vyos_client.Base.Text.{join}
use vyos_client.Store.Pending.{PendingChange, remove_many}
use vyos_client.Store.Pending.Removal.{ids}
use vyos_client.Store.Unsaved.{mark_committed, mark_saved}
use vyos_client.Commit.{
  SafeApplyInput, seconds, default_seconds, in_range, PendingAction, commit, rollback,
  CommitResponse, Failure, failure_message, Flight, idle, committing, saving_after_commit, keeping,
  saving_after_keep, saving, rolling_back, Bar,
}

-- `setBusy(true)`, `setError(null)` and the first `await` of a handler
unfoldable pub start : Flight → Bar → Bar
start f b = record b { busy = true; error = none; flight = f }

-- `setBusy(false)` of a `finally`
unfoldable pub finish : Bar → Bar
finish b = record b { busy = false; flight = idle }

unfoldable pub set_error : String → Bar → Bar
set_error message b = record b { error = some message }

-- `confirm.start(response, requestedSeconds)` at the time `now`
unfoldable pub confirm_start : ℕ → CommitResponse → ℕ → Bar → Bar
confirm_start now response requested b = record b {
  ends_at = some (now + or_else response.confirm_seconds requested * 1000);
}

unfoldable pub confirm_stop : Bar → Bar
confirm_stop b = record b { ends_at = none }

-- `removeMany(changes.map((c) => c.id))` and `markCommitted(changes)`
unfoldable pub settle : List PendingChange → Bar → Bar
unfolding mark_committed remove_many
settle batch b = record b {
  changes = remove_many (ids batch) b.changes;
  committed_changes = mark_committed batch b.committed_changes;
}

unfoldable pub saved : Bar → Bar
unfolding mark_saved
saved b = record b { committed_changes = mark_saved b.committed_changes }

unfoldable pub not_saved_message : Failure → String
unfolding failure_message join
not_saved_message f = join "" (
    "Applied but not saved: "
    ∷ failure_message f "saving failed"
    ∷ ". Your change is live but will be lost on reboot unless you save."
    ∷ [])

unfoldable pub run_commit : Bool → Bar → Bar
unfolding start seconds
run_commit also_save b =
    start (committing b.changes also_save b.safe_apply_input.enabled (seconds b.safe_apply_input)) b

-- The end of the branch without a confirm window: `saveAfterSuccessfulCommit` or the `finally`.
unfoldable pub after_commit : Bool → Bar → Bar
unfolding finish
after_commit true b = record b { flight = saving_after_commit }
after_commit false b = finish b

-- The rest of `runCommit` by `result.pendingConfirm`.
unfoldable pub commit_result : Bool → ℕ → CommitResponse → List PendingChange → Bool → ℕ → Bar → Bar
unfolding confirm_start finish settle after_commit
commit_result true now response batch also_save s b = finish (
    confirm_start now response s (record b {
      pending_action = commit;
      pending_commit_changes = batch;
      save_after_confirm = also_save;
    }))
commit_result false now response batch also_save s b = after_commit also_save (settle batch b)

unfoldable pub commit_failed : Failure → Bar → Bar
unfolding set_error finish failure_message
commit_failed f b = finish (set_error (failure_message f "Failed to apply changes.") b)

unfoldable pub handle_keep : Bar → Bar
unfolding start
handle_keep b = start (keeping b.pending_action b.pending_commit_changes b.save_after_confirm) b

-- The `finally` of `handleKeep`
unfoldable pub finish_keep : Bar → Bar
unfolding finish
finish_keep b = finish (record b { save_after_confirm = false })

unfoldable pub after_keep : Bool → Bar → Bar
unfolding finish_keep
after_keep true b = record b { flight = saving_after_keep }
after_keep false b = finish_keep b

unfoldable pub keep_result : PendingAction → List PendingChange → Bool → Bar → Bar
unfolding confirm_stop saved settle finish_keep after_keep
keep_result rollback batch also_save b = finish_keep (saved (confirm_stop b))
keep_result commit batch also_save b = after_keep also_save (settle batch (confirm_stop b))

unfoldable pub keep_failure : PendingAction → String
keep_failure rollback = "Failed to confirm the rollback."
keep_failure commit = "Failed to confirm changes."

unfoldable pub keep_failed : PendingAction → Failure → Bar → Bar
unfolding set_error finish_keep failure_message keep_failure
keep_failed action f b = finish_keep (set_error (failure_message f (keep_failure action)) b)

unfoldable pub handle_standalone_save : Bar → Bar
unfolding start
handle_standalone_save b = start saving b

unfoldable pub save_failed : Failure → Bar → Bar
unfolding set_error finish failure_message
save_failed f b = finish (set_error (failure_message f "Failed to save configuration.") b)

unfoldable pub rollback_confirm_seconds : SafeApplyInput → ℕ
unfolding seconds default_seconds
rollback_confirm_seconds i = if in_range (seconds i) then seconds i else default_seconds i

unfoldable pub run_rollback : Bar → Bar
unfolding start rollback_confirm_seconds
run_rollback b = start (rolling_back (rollback_confirm_seconds b.safe_apply_input)) b

unfoldable pub rollback_result : Bool → ℕ → CommitResponse → ℕ → Bar → Bar
unfolding confirm_start finish saved
rollback_result true now response s b =
    finish (confirm_start now response s (record b { pending_action = rollback }))
rollback_result false now response s b = finish (saved b)

unfoldable pub rollback_failed : Failure → Bar → Bar
unfolding set_error finish failure_message
rollback_failed f b = finish (set_error (failure_message f "Failed to roll back configuration.") b)

-- What a request ends with: a response, at a time, or what it throws.
pub data Reply : Type 0 where
  fulfilled : ℕ → CommitResponse → Reply
  rejected : Failure → Reply

-- The handler that awaits goes on.
unfoldable pub receive : Flight → Reply → Bar → Bar
unfolding commit_result commit_failed finish finish_keep saved set_error not_saved_message
    keep_result keep_failed save_failed rollback_result rollback_failed
receive idle reply b = b
receive (committing batch also_save safe_apply s) (fulfilled now response) b =
    commit_result response.pending_confirm now response batch also_save s b
receive (committing batch also_save safe_apply s) (rejected f) b = commit_failed f b
receive saving_after_commit (fulfilled now response) b = finish (saved b)
receive saving_after_commit (rejected f) b = finish (set_error (not_saved_message f) b)
receive (keeping action batch also_save) (fulfilled now response) b =
    keep_result action batch also_save b
receive (keeping action batch also_save) (rejected f) b = keep_failed action f b
receive saving_after_keep (fulfilled now response) b = finish_keep (saved b)
receive saving_after_keep (rejected f) b = finish_keep (set_error (not_saved_message f) b)
receive saving (fulfilled now response) b = finish (saved b)
receive saving (rejected f) b = save_failed f b
receive (rolling_back s) (fulfilled now response) b =
    rollback_result response.pending_confirm now response s b
receive (rolling_back s) (rejected f) b = rollback_failed f b

unfoldable pub expiry_message : PendingAction → String
expiry_message rollback =
    "The confirm window ran out, so VyOS reverted the rollback and your committed changes are live again."
expiry_message commit =
    "The confirm window ran out, so VyOS reverted the commit. Your changes are still pending."

-- `setEndsAt(null)` and the bar's `onExpire`
unfoldable pub expire : Bar → Bar
unfolding confirm_stop set_error expiry_message
expire b =
    set_error (expiry_message b.pending_action)
      (record (confirm_stop b) { save_after_confirm = false })

-- `Math.ceil((endsAt - Date.now()) / 1000)`, where 0 stands for every number below it.
abbrev pub whole_seconds : ℕ → ℕ
whole_seconds milliseconds = (milliseconds + 999) / 1000

-- `tick` of `useConfirmCountdown`, by `endsAt`
unfoldable pub tick_at : ℕ → Option ℕ → Bar → Bar
unfolding expire
tick_at now none b = b
tick_at now (some ends) b =
    if leb (whole_seconds (ends - now)) 0
    then expire b
    else record b { seconds_left = whole_seconds (ends - now) }

unfoldable pub tick : ℕ → Bar → Bar
unfolding tick_at
tick now b = tick_at now b.ends_at b
