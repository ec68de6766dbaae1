-- ===== src/Tests/Sessions.antt =====
-- Sessions: a late 401, who owns the queue, and a reload.
use vyos_client.Base.{String, List, [], ◌∷◌, ◌≡◌, refl, none, some, All, Option}
use vyos_client.Config.Op.{set_node}
use vyos_client.Store.Pending.{NewChange, add, partialize}
use vyos_client.Store.Session.{Tab, initial, login, check_session}
use vyos_client.Store.Session.Stale.{
  Event, call, issue, unauthorized, checked, logged_in, run, step, start, login-survives_stale,
}
use vyos_client.Store.Session.Owner.{
  Acts, queues, logs_in, done, Acts-own_changes, reload, reload-keeps_changes,
}

abbrev history : List Event
history = checked (some "ann") ∷ issue (call "/api/configure") ∷ unauthorized 0 ∷ []

login-survives_stale_example :
    (run
      (step (run start history) (logged_in (some "ann")))
      (issue (call "/api/show") ∷ unauthorized 0 ∷ [])).tab.session
    ≡ (login (some "ann") (run start history).tab).session
unfolding run
login-survives_stale_example =
    login-survives_stale history "ann" (issue (call "/api/show") ∷ unauthorized 0 ∷ [])
      (tt, (tt, tt))

abbrev opened : Tab
opened = record { session = initial; changes = [] }

abbrev enable : NewChange
enable = record { op = set_node ("service" ∷ "ssh" ∷ []); label = "Enable SSH" }

abbrev as_ann : Tab
as_ann = login (some "ann") opened

abbrev queued : Tab
queued = record as_ann { changes = add "1" enable as_ann.changes }

ann_acts : Acts (λ id. "ann") opened queued
unfolding login
ann_acts =
    Acts.step opened as_ann queued (logs_in opened (some "ann"))
      (Acts.step as_ann queued queued (queues as_ann "ann" "1" enable refl refl) (done queued))

Acts-own_changes_example :
    All (λ c. ◌≡◌ {A = Option String} (some "ann") (some "ann")) queued.changes
unfolding login
Acts-own_changes_example = Acts-own_changes (λ id. "ann") queued "ann" ann_acts refl

reload-keeps_changes_example :
    (login
      (some "bob")
      (record (reload queued) { session = check_session none (reload queued).session })).changes
    ≡ partialize queued.changes
reload-keeps_changes_example = reload-keeps_changes queued "bob"
