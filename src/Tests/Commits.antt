-- ===== src/Tests/Commits.antt =====
-- The commit bar at concrete states.
use vyos_client.Base.{ℕ, String, true, false, none, some, List, [], ◌∷◌, ◌≡◌, refl, All, arith}
use vyos_client.Config.Op.{set, set_value}
use vyos_client.Masking.{is_masked_path}
use vyos_client.Store.Pending.{PendingChange, NewChange, add}
use vyos_client.Commit.{
  commit, Bar, CommitResponse, api_error, committing, commit_request, rollback_request, request,
  safe_seconds, seconds, describe_change, in_range,
}
use vyos_client.Commit.Handlers.{fulfilled, rejected, receive, run_rollback}
use vyos_client.Commit.Steps.{
  queue_change, click_commit, click_keep, allowed, reply, clock, step, mounted, Reachable, at_first,
  after, can_commit,
}
use vyos_client.Commit.Once.Orderly.{IsOrderly}
use vyos_client.Commit.Once.{Reachable-IsOrderly}
use vyos_client.Commit.Life.{Moves, stage, step-Moves}
use vyos_client.Commit.Requests.{
  IsWindow, IsQuoteFree, click_commit-request, run_rollback-request, describe_change-masked,
}
use vyos_client.Commit.Pause.{Pause}
use vyos_client.Commit.Trial.{IsCommitted, kept-IsCommitted, HasReverted, window-HasReverted}
use vyos_client.Commit.Window.{receive-rejected, two_replies-busy}

abbrev port : List String
port = "service" ∷ "ssh" ∷ "port" ∷ []

abbrev set_port : NewChange
set_port = record { op = set_value port "22"; label = "Port" }

abbrev queued_port : PendingChange
queued_port = record { id = "1"; op = set_value port "22"; label = "Port" }

abbrev later_port : NewChange
later_port = record { op = set_value port "23"; label = "Port" }

abbrev queued_later : PendingChange
queued_later = record { id = "2"; op = set_value port "23"; label = "Port" }

-- One change is queued, and "Safe apply" is on with a minute.
abbrev queued_bar : Bar
queued_bar = record mounted {
  changes = queued_port ∷ [];
  safe_apply_input = record { enabled = true; edited = some 60; reported = none };
}

abbrev final : CommitResponse
final = record { pending_confirm = false; confirm_seconds = none }

abbrev waiting : CommitResponse
waiting = record { pending_confirm = true; confirm_seconds = some 120 }

-- The port was queued and "Commit & Save" was clicked.
abbrev clicked : Bar
clicked = step (click_commit true) (step (queue_change "1" set_port) mounted)

clicked-Reachable : Reachable clicked
clicked-Reachable =
    after (step (queue_change "1" set_port) mounted) (click_commit true)
      (after mounted (queue_change "1" set_port) at_first (refl, refl)) tt

Reachable-IsOrderly_example : IsOrderly clicked
Reachable-IsOrderly_example = Reachable-IsOrderly clicked clicked-Reachable

step-Moves_example :
    Moves "1"
      (reply (fulfilled 0 final))
      (stage "1" clicked)
      (stage "1" (step (reply (fulfilled 0 final)) clicked))
step-Moves_example = step-Moves "1" clicked (reply (fulfilled 0 final)) clicked-Reachable

-- Another change is queued before the answer, and the clock ticks while the window is open.
abbrev waiting_bar : Bar
waiting_bar = step (queue_change "2" later_port) (step (click_commit true) queued_bar)

abbrev trial_bar : Bar
trial_bar = step (clock 5000) (step (reply (fulfilled 0 waiting)) waiting_bar)

waiting_bar-Pause : Pause (step (click_commit true) queued_bar) (queued_later ∷ []) waiting_bar
unfolding can_commit step add
waiting_bar-Pause = Pause.queues [] _ "2" later_port Pause.begins refl

trial_bar-Pause : Pause (step (reply (fulfilled 0 waiting)) waiting_bar) [] trial_bar
unfolding can_commit step
trial_bar-Pause = Pause.ticks [] _ 5000 Pause.begins (omega arith)

kept-IsCommitted_example :
    IsCommitted
      (queued_later ∷ [])
      queued_bar
      (step (reply (fulfilled 9000 final)) (step click_keep trial_bar))
unfolding can_commit
kept-IsCommitted_example =
    kept-IsCommitted true queued_bar waiting_bar trial_bar (step click_keep trial_bar)
      (queued_later ∷ []) [] [] 0 waiting 9000 final refl waiting_bar-Pause refl trial_bar-Pause
      Pause.begins (refl, tt)

window-HasReverted_example :
    HasReverted commit (queued_later ∷ []) queued_bar (step (clock 120000) trial_bar)
unfolding can_commit allowed
window-HasReverted_example =
    window-HasReverted commit true queued_bar waiting_bar trial_bar (queued_later ∷ []) [] 0 waiting
      120000 refl waiting_bar-Pause refl trial_bar-Pause (omega arith)

click_commit-request_example :
    (request (step (click_commit true) queued_bar).flight
      ≡ some (
          commit_request
            (set_value port "22" ∷ [])
            (safe_seconds true (seconds queued_bar.safe_apply_input))))
    × All IsQuoteFree (set_value port "22" ∷ [])
    × IsWindow (safe_seconds true (seconds queued_bar.safe_apply_input))
unfolding can_commit
click_commit-request_example = click_commit-request true queued_bar refl

run_rollback-request_example :
    (s : ℕ) × (request (run_rollback queued_bar).flight ≡ some (rollback_request (some s)))
    × (in_range s ≡ true)
run_rollback-request_example = run_rollback-request queued_bar

two_replies-busy_example :
    (step
      (reply (rejected (api_error "disk full")))
      (step (reply (fulfilled 0 final)) clicked)).busy
    ≡ false
two_replies-busy_example =
    two_replies-busy clicked (fulfilled 0 final) (rejected (api_error "disk full"))
      clicked-Reachable

receive-rejected_example :
    ((receive
        (committing (queued_port ∷ []) true true 60)
        (rejected (api_error "locked"))
        queued_bar).changes
      ≡ queued_port ∷ [])
    × ((receive
          (committing (queued_port ∷ []) true true 60)
          (rejected (api_error "locked"))
          queued_bar).committed_changes
        ≡ [])
receive-rejected_example =
    receive-rejected (committing (queued_port ∷ []) true true 60) (api_error "locked") queued_bar

describe_change-masked_example :
    describe_change (set_value ("login" ∷ "plaintext-password" ∷ []) "hunter2")
    ≡ describe_change (set_value ("login" ∷ "plaintext-password" ∷ []) "letmein")
unfolding is_masked_path
describe_change-masked_example =
    describe_change-masked set ("login" ∷ "plaintext-password" ∷ []) "hunter2" "letmein" refl refl
      refl
