-- ===== src/Store/Session.antt =====
-- store/session.ts, and how lib/api.ts reports a 401 to it. Each asynchronous function is one
-- step for each way in which its request can end.
pub mod Stale
pub mod Owner
use vyos_client.Base.{
  ℕ, ◌+◌, String, Bool, true, false, not, ◌&&◌, Option, none, some, List, [], ◌∷◌, ◌==◌, eqb, any,
  if◌then◌else◌,
}
use vyos_client.Store.Pending.{PendingChange, clear}

pub data SessionStatus : Type 0 where
  unknown authenticated anonymous : SessionStatus

pub record SessionState : Type 0 where
  pub user : Option String
  pub last_user : Option String
  pub status : SessionStatus
  pub session_expired : Bool
  pub generation : ℕ

abbrev pub initial : SessionState
initial = record {
  user = none;
  last_user = none;
  status = unknown;
  session_expired = false;
  generation = 0;
}

-- The session store together with the queue that it clears.
pub record Tab : Type 0 where
  pub session : SessionState
  pub changes : List PendingChange

-- `checkSession`: the request's answer, or `none` where it throws
unfoldable pub check_session : Option String → SessionState → SessionState
check_session (some user) s = record s {
  user = some user;
  last_user = some user;
  status = authenticated;
  generation = s.generation + 1;
}
check_session none s = record s { user = none; status = anonymous }

-- `lastUser !== null && lastUser !== res.user`
abbrev pub is_other_user : Option String → String → Bool
is_other_user none user = false
is_other_user (some last) user = not (last == user)

-- `login`: the user of the answer; where the request throws nothing changes
unfoldable pub login : Option String → Tab → Tab
login none t = t
login (some user) t = record {
  session = record (t.session) {
    user = some user;
    last_user = some user;
    status = authenticated;
    session_expired = false;
    generation = t.session.generation + 1;
  };
  changes = if is_other_user t.session.last_user user then [] else t.changes;
}

-- `logout`: the same, whether its request succeeds or throws
unfoldable pub logout : Tab → Tab
unfolding clear
logout t = record {
  session = record (t.session) { user = none; last_user = none; status = anonymous };
  changes = clear t.changes;
}

abbrev pub was_authenticated : SessionStatus → Bool
was_authenticated authenticated = true
was_authenticated _ = false

unfoldable pub handle_unauthorized : ℕ → SessionState → SessionState
handle_unauthorized request_generation s =
    if eqb request_generation s.generation
    then record s { user = none; status = anonymous; session_expired = was_authenticated s.status }
    else s

abbrev pub exempt_paths : List String
exempt_paths = "/api/auth/login" ∷ "/api/auth/session" ∷ []

-- `apiRequest` on a response that is not ok: the handler runs on a 401 outside the exempt paths.
unfoldable pub report_failure : ℕ → String → ℕ → SessionState → SessionState
unfolding handle_unauthorized
report_failure status path request_generation s =
    if eqb status 401 && not (any (λ p. p == path) exempt_paths)
    then handle_unauthorized request_generation s
    else s
