-- ===== src/Commit.antt =====
-- components/PendingChangesBar.tsx, hooks/useSafeApply.ts, hooks/useConfirmCountdown.ts and
-- lib/safeApply.ts: the state of the commit bar, its parts and what they send. A number of seconds is
-- a natural number here: a negative or fractional one, which the field accepts, is left out.
pub mod Handlers
pub mod Steps
pub mod Lists
pub mod Once
pub mod Guards
pub mod Requests
pub mod Pause
pub mod Trial
pub mod Window
pub mod Life
use vyos_client.Base.{
  ℕ, ◌+◌, ◌-◌, ◌*◌, ◌/◌, min, String, Bool, true, false, not, ◌&&◌, ◌||◌, Option, none, some, List,
  [], ◌∷◌, ◌++◌, map, any, select, leb, eqb, ◌==◌, or_else, if◌then◌else◌,
}
use vyos_client.Base.Text.{includes, join}
use vyos_client.Config.Op.{ConfigOp, ConfigOpKind, set, delete, comment}
use vyos_client.Masking.{mask_value}
use vyos_client.Store.Pending.{PendingChange}

abbrev pub min_confirm_seconds : ℕ
min_confirm_seconds = 10

abbrev pub max_confirm_seconds : ℕ
max_confirm_seconds = 600

abbrev pub default_confirm_seconds : ℕ
default_confirm_seconds = 90

abbrev pub max : ℕ → ℕ → ℕ
max a b = if leb a b then b else a

unfoldable pub clamp_confirm_seconds : ℕ → ℕ
clamp_confirm_seconds seconds = min max_confirm_seconds (max min_confirm_seconds seconds)

-- `seconds >= MIN_CONFIRM_SECONDS && seconds <= MAX_CONFIRM_SECONDS`
abbrev pub in_range : ℕ → Bool
in_range seconds = leb min_confirm_seconds seconds && leb seconds max_confirm_seconds

-- `useSafeApplyInput`: the toggle, the seconds once edited, and what the backend reports as its
-- default, once it has arrived.
pub record SafeApplyInput : Type 0 where
  pub enabled : Bool
  pub edited : Option ℕ
  pub reported : Option ℕ

-- `useDefaultConfirmSeconds`
unfoldable pub default_seconds : SafeApplyInput → ℕ
unfolding clamp_confirm_seconds
default_seconds i = clamp_confirm_seconds (or_else i.reported default_confirm_seconds)

unfoldable pub seconds : SafeApplyInput → ℕ
unfolding default_seconds
seconds i = or_else i.edited (default_seconds i)

unfoldable pub valid : SafeApplyInput → Bool
unfolding seconds
valid i = not i.enabled || in_range (seconds i)

pub data PendingAction : Type 0 where
  commit rollback : PendingAction

pub record CommitResponse : Type 0 where
  pub pending_confirm : Bool
  pub confirm_seconds : Option ℕ

-- What a request throws: an `ApiError` with its message, or anything else.
pub data Failure : Type 0 where
  api_error : String → Failure
  other_error : Failure

unfoldable pub failure_message : Failure → String → String
failure_message (api_error message) fallback = message
failure_message other_error fallback = fallback

-- The request that a handler awaits, with the values that its closure captured when it was called.
pub data Flight : Type 0 where
  idle : Flight
  committing : List PendingChange → Bool → Bool → ℕ → Flight
  saving_after_commit : Flight
  keeping : PendingAction → List PendingChange → Bool → Flight
  saving_after_keep : Flight
  saving : Flight
  rolling_back : ℕ → Flight

-- The functions of lib/vyosApi.ts that the bar calls, with the bodies that they send.
pub data Request : Type 0 where
  commit_request : List ConfigOp → Option ℕ → Request
  confirm_request : Request
  save_request : Request
  rollback_request : Option ℕ → Request

-- `confirmSeconds || undefined`
unfoldable pub confirm_field : Option ℕ → Option ℕ
confirm_field none = none
confirm_field (some s) = if eqb s 0 then none else some s

-- `safeApply ? confirmSeconds : undefined`
abbrev pub safe_seconds : Bool → ℕ → Option ℕ
safe_seconds true s = some s
safe_seconds false s = none

unfoldable pub request : Flight → Option Request
unfolding confirm_field
request idle = none
request (committing batch also_save safe_apply s) =
    some (commit_request (map (λ c. c.op) batch) (confirm_field (safe_seconds safe_apply s)))
request saving_after_commit = some save_request
request (keeping action batch also_save) = some confirm_request
request saving_after_keep = some save_request
request saving = some save_request
request (rolling_back s) = some (rollback_request (confirm_field (some s)))

-- The stores, the component's own state, the commit-confirm window of `useCommitConfirm` and the
-- request in flight.
pub record Bar : Type 0 where
  pub changes : List PendingChange
  pub committed_changes : List PendingChange
  pub safe_apply_input : SafeApplyInput
  pub busy : Bool
  pub error : Option String
  pub pending_action : PendingAction
  pub pending_commit_changes : List PendingChange
  pub save_after_confirm : Bool
  pub ends_at : Option ℕ
  pub seconds_left : ℕ
  pub flight : Flight

unfoldable pub kind_name : ConfigOpKind → String
kind_name set = "set"
kind_name delete = "delete"
kind_name comment = "comment"

-- The value, masked, in quotes: nothing where there is none or an empty one.
unfoldable pub described_value : List String → Option String → String
unfolding mask_value
described_value path none = ""
described_value path (some v) =
    if v == "" then "" else join "" (" '" ∷ mask_value path v ∷ "'" ∷ [])

unfoldable pub describe_change : ConfigOp → String
unfolding described_value join kind_name
describe_change op =
    join "" (kind_name op.op ∷ " " ∷ join " " op.path ∷ described_value op.path op.value ∷ [])

abbrev pub quoted_value : Option String → Bool
quoted_value none = false
quoted_value (some v) = includes v "'"

unfoldable pub has_invalid_quote : ConfigOp → Bool
unfolding includes
has_invalid_quote op = quoted_value op.value || any (λ segment. includes segment "'") op.path

unfoldable pub invalid_quote_changes : List PendingChange → List PendingChange
unfolding has_invalid_quote
invalid_quote_changes changes = select (λ c. has_invalid_quote c.op) changes

-- Which of the bar's five forms the component returns.
pub data View : Type 0 where
  hidden confirm_panel error_only unsaved_bar pending_bar : View

abbrev pub is_some {ℓ} : {A : Type ℓ} → Option A → Bool
is_some none = false
is_some (some a) = true

abbrev pub is_empty {ℓ} : {A : Type ℓ} → List A → Bool
is_empty [] = true
is_empty (x ∷ xs) = false

unfoldable pub view : Bar → View
view b =
    if is_empty b.changes
      && not (is_some b.ends_at)
      && not (is_some b.error)
      && is_empty b.committed_changes
    then hidden
    else if is_some b.ends_at
    then confirm_panel
    else if is_empty b.changes && is_some b.error
    then error_only
    else if is_empty b.changes && not (is_some b.error) && not (is_empty b.committed_changes)
    then unsaved_bar
    else pending_bar
