-- ===== src/Commit/Steps.antt =====
-- components/PendingChangesBar.tsx: what can happen to the bar, in any order, and the states that it
-- reaches. A button that is not shown or is disabled does nothing.
use vyos_client.Base.{
  ℕ, String, Bool, true, false, not, ◌&&◌, ◌||◌, none, some, List, [], any, if◌then◌else◌, ◌≡◌,
  ◌==◌,
}
use vyos_client.Store.Pending.{PendingChange, NewChange, add, remove, clear}
use vyos_client.Store.Pending.Removal.{ids}
use vyos_client.Commit.{
  valid, commit, idle, Bar, View, hidden, confirm_panel, error_only, unsaved_bar, pending_bar, view,
  invalid_quote_changes, is_empty,
}
use vyos_client.Commit.Handlers.{
  run_commit, handle_keep, handle_standalone_save, run_rollback, Reply, receive, saved, tick,
}

pub data Event : Type 0 where
  -- an edit anywhere in the application, and the ✕ of an entry
  queue_change : String → NewChange → Event
  discard_change : String → Event
  -- the buttons of the bar; `click_commit true` is "Commit & Save"
  click_discard : Event
  click_commit : Bool → Event
  click_keep : Event
  click_save : Event
  click_rollback : Event
  click_mark_as_saved : Event
  click_dismiss : Event
  -- the two fields of "Safe apply", and the default that the backend reports
  toggle_safe_apply : Bool → Event
  edit_seconds : ℕ → Event
  default_arrives : ℕ → Event
  -- the end of the request in flight, and the clock
  reply : Reply → Event
  clock : ℕ → Event

abbrev pub is_view : View → View → Bool
is_view hidden hidden = true
is_view confirm_panel confirm_panel = true
is_view error_only error_only = true
is_view unsaved_bar unsaved_bar = true
is_view pending_bar pending_bar = true
is_view _ _ = false

-- The buttons "Commit" and "Commit & Save"
unfoldable pub can_commit : Bar → Bool
unfolding view valid invalid_quote_changes
can_commit b =
    is_view pending_bar (view b)
    && not (
        b.busy
        || not (valid b.safe_apply_input)
        || not (is_empty (invalid_quote_changes b.changes)))

-- The button is rendered and not disabled.
unfoldable pub allowed : Event → Bar → Bool
unfolding view can_commit
allowed (queue_change id change) b = true
allowed (discard_change id) b = is_view pending_bar (view b)
allowed click_discard b = is_view pending_bar (view b) && not b.busy
allowed (click_commit also_save) b = can_commit b
allowed click_keep b = is_view confirm_panel (view b) && not b.busy
allowed click_save b = is_view unsaved_bar (view b) && not b.busy
allowed click_rollback b = is_view unsaved_bar (view b) && not b.busy
allowed click_mark_as_saved b = is_view unsaved_bar (view b)
allowed click_dismiss b = is_view error_only (view b)
allowed (toggle_safe_apply on) b = is_view pending_bar (view b)
allowed (edit_seconds n) b = is_view pending_bar (view b) && b.safe_apply_input.enabled
allowed (default_arrives n) b = true
allowed (reply r) b = true
allowed (clock now) b = true

unfoldable pub handle : Event → Bar → Bar
unfolding add remove clear run_commit handle_keep handle_standalone_save run_rollback saved receive
    tick
handle (queue_change id change) b = record b { changes = add id change b.changes }
handle (discard_change id) b = record b { changes = remove id b.changes }
handle click_discard b = record b { changes = clear b.changes }
handle (click_commit also_save) b = run_commit also_save b
handle click_keep b = handle_keep b
handle click_save b = handle_standalone_save b
handle click_rollback b = run_rollback b
handle click_mark_as_saved b = saved b
handle click_dismiss b = record b { error = none }
handle (toggle_safe_apply on) b = record b {
  safe_apply_input = record (b.safe_apply_input) { enabled = on };
}
handle (edit_seconds n) b = record b {
  safe_apply_input = record (b.safe_apply_input) { edited = some n };
}
handle (default_arrives n) b = record b {
  safe_apply_input = record (b.safe_apply_input) { reported = some n };
}
handle (reply r) b = receive b.flight r b
handle (clock now) b = tick now b

unfoldable pub step : Event → Bar → Bar
unfolding allowed handle
step e b = if allowed e b then handle e b else b

-- The bar when it is mounted in a tab whose stores are empty.
abbrev pub mounted : Bar
mounted = record {
  changes = [];
  committed_changes = [];
  safe_apply_input = record { enabled = false; edited = none; reported = none };
  busy = false;
  error = none;
  pending_action = commit;
  pending_commit_changes = [];
  save_after_confirm = false;
  ends_at = none;
  seconds_left = 0;
  flight = idle;
}

-- The change's id is none of theirs.
abbrev pub Absent : List PendingChange → PendingChange → Type 0
Absent known c = any (λ id. id == c.id) (ids known) ≡ false

-- `crypto.randomUUID()` gives an id that no change in the stores has.
abbrev pub IsNew : String → NewChange → Bar → Type 0
IsNew id change b =
    let c : PendingChange = record { id = id; op = change.op; label = change.label } in
    Absent b.changes c × Absent b.committed_changes c

abbrev pub Happens : Event → Bar → Type 0
Happens (queue_change id change) b = IsNew id change b
Happens _ b = Unit

pub data Reachable : Bar → Type 0 where
  at_first : Reachable mounted
  after : (b : Bar) (e : Event) → Reachable b → Happens e b → Reachable (step e b)
