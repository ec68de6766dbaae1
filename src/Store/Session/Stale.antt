-- ===== src/Store/Session/Stale.antt =====
-- lib/api.ts and store/session.ts: a 401 that comes late. Requests keep the generation that they were
-- issued under.
use vyos_client.Base.{
  ℕ, zero, suc, ◌+◌, ◌<◌, ◌≤◌, String, ◌≡◌, refl, Option, none, some, List, [], ◌∷◌, ◌++◌,
  get_elem?, arith, All, All-append, All-map, sym, ap, ◌∙◌, subst, append_assoc, append-nil,
}
use vyos_client.Store.Session.{
  SessionState, Tab, check_session, login, logout, report_failure, initial,
}

-- What a request is for: `checkSession`, `login`, `logout`, or a call of another path.
pub data Purpose : Type 0 where
  probe sign_in sign_out : Purpose
  call : String → Purpose

-- `requestGeneration` of `apiRequest`, and what awaits the answer
pub record Issued : Type 0 where
  pub generation : ℕ
  pub purpose : Purpose

-- The tab, and the requests that were issued, the oldest first.
pub record World : Type 0 where
  pub tab : Tab
  pub issued : List Issued

pub data Event : Type 0 where
  issue : Purpose → Event
  -- a 401 to the request at a position
  unauthorized : ℕ → Event
  -- the other ends of `checkSession`, `login` and `logout`: an answer, or another failure
  checked logged_in : Option String → Event
  logged_out : Event

abbrev request_path : Purpose → String
request_path probe = "/api/auth/session"
request_path sign_in = "/api/auth/login"
request_path sign_out = "/api/auth/logout"
request_path (call path) = path

-- What awaits a request goes on when `apiRequest` has thrown: the `catch` of `checkSession`, and the
-- `finally` of `logout`.
abbrev rethrow : Purpose → Tab → Tab
rethrow probe t = record t { session = check_session none t.session }
rethrow sign_in t = login none t
rethrow sign_out t = logout t
rethrow (call path) t = t

-- A 401 to a request: `apiRequest` reports it and throws.
abbrev refuse : Option Issued → Tab → Tab
refuse none t = t
refuse (some r) t =
    rethrow r.purpose
      (record t { session = report_failure 401 (request_path r.purpose) r.generation t.session })

unfoldable pub step : World → Event → World
unfolding login logout check_session report_failure
step w (issue purpose) = record w {
  issued = w.issued ++ record { generation = w.tab.session.generation; purpose = purpose } ∷ [];
}
step w (unauthorized i) = record w { tab = refuse (get_elem? w.issued i) w.tab }
step w (checked answer) = record w {
  tab = record (w.tab) { session = check_session answer w.tab.session };
}
step w (logged_in answer) = record w { tab = login answer w.tab }
step w logged_out = record w { tab = logout w.tab }

unfoldable pub run : World → List Event → World
unfolding step
run w [] = w
run w (e ∷ events) = run (step w e) events

abbrev pub start : World
start = record { tab = record { session = initial; changes = [] }; issued = [] }

-- No request is issued under a later generation than the current one.
abbrev pub IsBounded : World → Type 0
IsBounded w = All (λ (r : Issued). r.generation ≤ w.tab.session.generation) w.issued

raise :
    (m n : ℕ)
    → m ≤ n
    → (rs : List Issued) → All (λ (r : Issued). r.generation ≤ m) rs
    → All (λ (r : Issued). r.generation ≤ n) rs
raise m n h rs =
    All-map (λ (r : Issued). r.generation ≤ m) (λ (r : Issued). r.generation ≤ n)
      (λ r le. omega arith) rs

report_failure-generation :
    (status : ℕ) (path : String) (g : ℕ) (s : SessionState)
    → (report_failure status path g s).generation ≡ s.generation
unfolding report_failure
report_failure-generation status path g s = ground arith

rethrow-generation :
    (p : Purpose) (t : Tab) → (rethrow p t).session.generation ≡ t.session.generation
unfolding check_session login logout
rethrow-generation probe t = refl
rethrow-generation sign_in t = refl
rethrow-generation sign_out t = refl
rethrow-generation (call path) t = refl

refuse-generation :
    (o : Option Issued) (t : Tab) → (refuse o t).session.generation ≡ t.session.generation
refuse-generation none t = refl
refuse-generation (some r) t =
    rethrow-generation r.purpose _
    ∙ report_failure-generation 401 (request_path r.purpose) r.generation t.session

step-IsBounded : (w : World) (e : Event) → IsBounded w → IsBounded (step w e)
unfolding step login logout check_session
step-IsBounded w (issue purpose) h =
    All-append (λ (r : Issued). r.generation ≤ w.tab.session.generation) w.issued _ h
      (omega arith, tt)
step-IsBounded w (unauthorized i) h =
    raise _ _ (omega (arith, refuse-generation (get_elem? w.issued i) w.tab)) w.issued h
step-IsBounded w (checked (some u)) h = raise _ _ (omega arith) w.issued h
step-IsBounded w (checked none) h = h
step-IsBounded w (logged_in (some u)) h = raise _ _ (omega arith) w.issued h
step-IsBounded w (logged_in none) h = h
step-IsBounded w logged_out h = h

run-IsBounded : (w : World) (events : List Event) → IsBounded w → IsBounded (run w events)
unfolding run
run-IsBounded w [] h = h
run-IsBounded w (e ∷ events) h = run-IsBounded (step w e) events (step-IsBounded w e h)

-- Neither the probe of `checkSession` nor a logout, each of which ends the session itself when it fails.
abbrev pub IsCall : Purpose → Type 0
IsCall probe = ⊥
IsCall sign_in = Unit
IsCall sign_out = ⊥
IsCall (call path) = Unit

abbrev pub IsOrdinary : Option Issued → Type 0
IsOrdinary none = ⊥
IsOrdinary (some r) = IsCall r.purpose

-- Events that leave a login alone: new requests, and 401s to ordinary ones of the old requests.
abbrev pub IsStale : List Issued → Event → Type 0
IsStale old (issue purpose) = Unit
IsStale old (unauthorized i) = IsOrdinary (get_elem? old i)
IsStale old (checked answer) = ⊥
IsStale old (logged_in answer) = ⊥
IsStale old logged_out = ⊥

-- The first requests were issued under earlier generations.
record HasOld (w : World) (old : List Issued) : Type 0 where
  newer : List Issued
  split : w.issued ≡ old ++ newer
  older : All (λ (r : Issued). r.generation < w.tab.session.generation) old

get_elem?-old :
    (n i : ℕ) (old newer : List Issued)
    → IsOrdinary (get_elem? old i)
    → All (λ (r : Issued). r.generation < n) old
    → (r : Issued) × (get_elem? (old ++ newer) i ≡ some r) × (r.generation < n) × IsCall r.purpose
get_elem?-old n i [] newer h a = absurd h
get_elem?-old n zero (r ∷ old) newer h (lt, a) = (r, refl, lt, h)
get_elem?-old n (suc i) (r ∷ old) newer h (lt, a) = get_elem?-old n i old newer h a

report_failure-stale :
    (path : String) (g : ℕ) (s : SessionState) → g < s.generation → report_failure 401 path g s ≡ s
unfolding report_failure
report_failure-stale path g s h = ground arith

rethrow-call : (p : Purpose) (t : Tab) → IsCall p → (rethrow p t).session ≡ t.session
unfolding login
rethrow-call probe t h = absurd h
rethrow-call sign_in t h = refl
rethrow-call sign_out t h = absurd h
rethrow-call (call path) t h = refl

step-stale :
    (w : World) (e : Event) (old : List Issued)
    → HasOld w old
    → IsStale old e
    → (step w e).tab.session ≡ w.tab.session
unfolding step
step-stale w (issue purpose) old h k = refl
step-stale w (unauthorized i) old h k =
    let (r, found, lt, ordinary) = get_elem?-old w.tab.session.generation i old h.newer k h.older in
    ap (λ o. (refuse o w.tab).session) (ap (λ l. get_elem? l i) h.split ∙ found)
    ∙ rethrow-call r.purpose _ ordinary
    ∙ report_failure-stale (request_path r.purpose) r.generation w.tab.session lt
step-stale w (checked answer) old h k = absurd k
step-stale w (logged_in answer) old h k = absurd k
step-stale w logged_out old h k = absurd k

step-HasOld :
    (w : World) (e : Event) (old : List Issued)
    → HasOld w old
    → IsStale old e
    → HasOld (step w e) old
unfolding step
step-HasOld w (issue purpose) old h k =
    let r : Issued = record { generation = w.tab.session.generation; purpose = purpose } in
    record {
      newer = h.newer ++ r ∷ [];
      split = ap (λ l. l ++ r ∷ []) h.split ∙ append_assoc old h.newer (r ∷ []);
      older = h.older;
    }
step-HasOld w (unauthorized i) old h k = record {
  newer = h.newer;
  split = h.split;
  older =
      subst (λ n. All (λ (r : Issued). r.generation < n) old)
        (sym (refuse-generation (get_elem? w.issued i) w.tab)) h.older;
}
step-HasOld w (checked answer) old h k = absurd k
step-HasOld w (logged_in answer) old h k = absurd k
step-HasOld w logged_out old h k = absurd k

run-stale :
    (w : World) (events : List Event) (old : List Issued)
    → HasOld w old
    → All (IsStale old) events
    → (run w events).tab.session ≡ w.tab.session
unfolding run
run-stale w [] old h k = refl
run-stale w (e ∷ events) old h (k, ks) =
    run-stale (step w e) events old (step-HasOld w e old h k) ks ∙ step-stale w e old h k

login-session :
    (w : World) (user : String)
    → (step w (logged_in (some user))).tab.session ≡ (login (some user) w.tab).session
unfolding step
login-session w user = refl

login-HasOld :
    (w : World) (user : String) → IsBounded w → HasOld (step w (logged_in (some user))) w.issued
unfolding step login
login-HasOld w user h = record {
  newer = [];
  split = sym (append-nil w.issued);
  older =
      All-map (λ (r : Issued). r.generation ≤ w.tab.session.generation)
        (λ (r : Issued). r.generation < w.tab.session.generation + 1) (λ r le. omega arith) w.issued
        h;
}

-- After a successful login the session stays just as the login left it, whatever 401s still come in
-- for requests that were issued before it, and whatever new requests are issued. Two kinds of earlier
-- requests are left out: the probe of `checkSession` and the request of `logout` end the session
-- themselves when they fail.
pub login-survives_stale :
    (history : List Event) (user : String) (events : List Event)
    → All (IsStale (run start history).issued) events
    → (run (step (run start history) (logged_in (some user))) events).tab.session
      ≡ (login (some user) (run start history).tab).session
login-survives_stale history user events h =
    let w = run start history in
    run-stale (step w (logged_in (some user))) events w.issued
      (login-HasOld w user (run-IsBounded start history tt)) h
    ∙ login-session w user
