-- ===== src/Store/Session/Owner.antt =====
-- Who queued what, in the life of one page: only the user who is logged in can queue a change. A
-- check of the session is started while its status is unknown (components/ProtectedRoute.tsx), and is
-- taken to be answered before anything else decides the status.
use vyos_client.Base.{
  ℕ, String, Bool, true, false, ◌≡◌, refl, sym, ap, ◌∙◌, subst, Option, none, some, List, [], ◌∷◌,
  ◌==◌, eq_iff, All, All-append, All-map, if◌then◌else◌, Bool-cases, Option-cases, inl, inr, select,
  eqb,
}
use vyos_client.Store.Pending.{
  PendingChange, NewChange, add, remove, remove_many, clear, drop_latest, repeats, cancels,
  last_change, latest_pending_op, same_path, partialize,
}
use vyos_client.Store.Session.{
  Tab, unknown, anonymous, check_session, login, logout, handle_unauthorized, initial,
  is_other_user, was_authenticated,
}

module _ (P : PendingChange → Type 0) where
  All-drop_latest :
      (cs : List PendingChange) (p : List String) → All P cs → All P (drop_latest cs p)
  unfolding drop_latest
  All-drop_latest [] p h = h
  All-drop_latest (c ∷ cs) p (hc, h) = elim (Option-cases (latest_pending_op cs p)) [
    | inr (op, e) ↦ rw (e, All) (hc, All-drop_latest cs p h)
    | inl e ↦
        rw (e, All)
          (elim (Bool-cases (same_path c.op.path p)) [
            | inl k ↦ rw (k, All) h
            | inr k ↦ rw (k, All) (hc, h)
          ])
  ]

  All-select : (p : PendingChange → Bool) (cs : List PendingChange) → All P cs → All P (select p cs)
  All-select p [] h = h
  All-select p (c ∷ cs) (hc, h) = elim (Bool-cases (p c)) [
    | inl k ↦ rw (k, All) (hc, All-select p cs h)
    | inr k ↦ rw (k, All) (All-select p cs h)
  ]

  -- Queueing a change adds at most that change.
  All-add :
      (id : String) (c : NewChange) (cs : List PendingChange)
      → P (record { id = id; op = c.op; label = c.label })
      → All P cs
      → All P (add id c cs)
  unfolding add
  All-add id c cs hc h = elim (Bool-cases (repeats (last_change cs) c.op)) [
    | inl k ↦ rw (k, All) h
    | inr k ↦
        rw (k, All)
          (elim (Bool-cases (cancels cs c.op)) [
            | inl l ↦ rw (l, All) (All-drop_latest cs c.op.path h)
            | inr l ↦ rw (l, All) (All-append P cs _ h (hc, tt))
          ])
  ]

module _ (author : String → String) where
  -- One action in the page; `author` says who made the change with an id.
  pub data Act : Tab → Tab → Type 0 where
    queues :
        (t : Tab) (user id : String) (c : NewChange)
        → t.session.user ≡ some user
        → author id ≡ user
        → Act t (record t { changes = add id c t.changes })
    removes : (t : Tab) (id : String) → Act t (record t { changes = remove id t.changes })
    removes_many :
        (t : Tab) (ids : List String) → Act t (record t { changes = remove_many ids t.changes })
    clears : (t : Tab) → Act t (record t { changes = clear t.changes })
    checks :
        (t : Tab) (answer : Option String)
        → t.session.status ≡ unknown
        → Act t (record t { session = check_session answer t.session })
    logs_in : (t : Tab) (answer : Option String) → Act t (login answer t)
    logs_out : (t : Tab) → Act t (logout t)
    expires : (t : Tab) (g : ℕ) → Act t (record t { session = handle_unauthorized g t.session })

  pub data Acts : Tab → Tab → Type 0 where
    done : (t : Tab) → Acts t t
    step : (t u v : Tab) → Act t u → Acts u v → Acts t v

  abbrev By : Option String → PendingChange → Type 0
  By last c = last ≡ some (author c.id)

  -- Every queued change is the last user's, who is the user where there is one.
  abbrev pub IsOwned : Tab → Type 0
  IsOwned t =
      All (By t.session.last_user) t.changes
      × ((u : String) → t.session.user ≡ some u → t.session.last_user ≡ some u)
      × (t.session.status ≡ unknown → t.session.last_user ≡ none)

  start-IsOwned : IsOwned (record { session = initial; changes = [] })
  start-IsOwned = (tt, (λ u e. e), λ e. refl)

  no_changes : (Q : PendingChange → Type 0) (cs : List PendingChange) → All (By none) cs → All Q cs
  no_changes Q [] h = tt
  no_changes Q (c ∷ cs) (h, _) = cc

  kept_at_login :
      (last : Option String) (u : String) (cs : List PendingChange)
      → All (By last) cs
      → All (By (some u)) (if is_other_user last u then [] else cs)
  kept_at_login none u cs h = no_changes _ cs h
  kept_at_login (some l) u cs h = elim (Bool-cases (l == u)) [
    | inl e ↦
        let (to, _) = eq_iff l u in
        rw (e, All) (All-map (By (some l)) (By (some u)) (λ c k. ap some (sym (to e)) ∙ k) cs h)
    | inr e ↦ rw (e, All) tt
  ]

  expired-IsOwned :
      (b : Bool) (t : Tab)
      → IsOwned t
      → IsOwned (record t {
        session =
            if b
            then record (t.session) {
              user = none;
              status = anonymous;
              session_expired = was_authenticated t.session.status;
            }
            else t.session;
      })
  expired-IsOwned true t (h, k, n) = (h, (λ u i. cc), λ i. cc)
  expired-IsOwned false t h = h

  Act-IsOwned : (t u : Tab) → Act t u → IsOwned t → IsOwned u
  unfolding remove remove_many clear check_session login logout handle_unauthorized
  Act-IsOwned _ _ (queues t user id c e a) (h, k, n) =
      (All-add (By t.session.last_user) id c t.changes (k user e ∙ ap some (sym a)) h, k, n)
  Act-IsOwned _ _ (removes t id) (h, k, n) = (All-select _ _ t.changes h, k, n)
  Act-IsOwned _ _ (removes_many t ids) (h, k, n) = (All-select _ _ t.changes h, k, n)
  Act-IsOwned _ _ (clears t) (h, k, n) = (tt, k, n)
  Act-IsOwned _ _ (checks t (some user) e) (h, k, n) = (
    no_changes _ t.changes (subst (λ last. All (By last) t.changes) (n e) h),
    (λ u i. i),
    λ i. cc,
  )
  Act-IsOwned _ _ (checks t none e) (h, k, n) = (h, (λ u i. cc), λ i. cc)
  Act-IsOwned _ _ (logs_in t (some user)) (h, k, n) =
      (kept_at_login t.session.last_user user t.changes h, (λ u i. i), λ i. cc)
  Act-IsOwned _ _ (logs_in t none) h = h
  Act-IsOwned _ _ (logs_out t) h = (tt, (λ u i. cc), λ i. refl)
  Act-IsOwned _ _ (expires t g) h = expired-IsOwned (eqb g t.session.generation) t h

  Acts-IsOwned : (t u : Tab) → Acts t u → IsOwned t → IsOwned u
  Acts-IsOwned _ _ (done t) h = h
  Acts-IsOwned _ _ (step t u v a rest) h = Acts-IsOwned u v rest (Act-IsOwned t u a h)

  -- In a page that was opened with an empty queue, whoever is logged in, after any actions,
  -- expiries and logins of other users included, finds only changes of their own in the queue. Changes
  -- are queued by the user who is logged in, and the session is checked while its status is unknown.
  pub Acts-own_changes :
      (t : Tab) (user : String)
      → Acts (record { session = initial; changes = [] }) t
      → t.session.user ≡ some user
      → All (λ c. some user ≡ some (author c.id)) t.changes
  Acts-own_changes t user acts e =
      let (h, k, _) = Acts-IsOwned _ t acts start-IsOwned in
      subst (λ last. All (By last) t.changes) (k user e) h

-- A reload of the page: the queue comes back from the browser's storage, the session's state does
-- not.
unfoldable pub reload : Tab → Tab
unfolding partialize
reload t = record { session = initial; changes = partialize t.changes }

-- After a reload of the page and a check that finds the session gone, any user who logs in gets
-- every change that was stored, whoever the last user was: none is cleared.
pub reload-keeps_changes :
    (t : Tab) (user : String)
    → (login
        (some user)
        (record (reload t) { session = check_session none (reload t).session })).changes
      ≡ partialize t.changes
unfolding login check_session reload
reload-keeps_changes t user = refl
