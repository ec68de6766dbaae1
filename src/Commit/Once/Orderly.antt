-- ===== src/Commit/Once/Orderly.antt =====
-- components/PendingChangesBar.tsx: the invariant of the commit bar, and changes that are new to it.
use vyos_client.Base.{
  select-passes, ℕ, String, Bool, true, false, not, ◌≡◌, refl, sym, List, [], ◌∷◌, ◌++◌, Option,
  none, some, any, select, All, All-append, All-zip, All-map, arith, ◌==◌,
}
use mathlib.Core.List.{Sublistᴰ}
use vyos_client.Store.Pending.{PendingChange, NewChange, add, remove_many}
use vyos_client.Store.Pending.Removal.{ids}
use vyos_client.Commit.{PendingAction, commit, Flight, idle, committing, keeping, Bar}
use vyos_client.Commit.Handlers.{start}
use vyos_client.Commit.Steps.{Absent}
use vyos_client.Commit.Lists.{
  Unique, Absent-append, Unique-append, Unique-Sublist, All-Sublist, Sublist-select, Added, fewer,
  appended, add-Added,
}

-- The changes that go to the committed ones if the request in flight succeeds, and those that do so
-- if the open window is kept.
abbrev pub owed : Flight → List PendingChange
owed (committing batch also_save safe_apply s) = batch
owed (keeping commit batch also_save) = batch
owed _ = []

abbrev pub on_trial : Option ℕ → PendingAction → List PendingChange → List PendingChange
on_trial (some ends) commit batch = batch
on_trial _ _ _ = []

abbrev pub is_flying : Flight → Bool
is_flying idle = false
is_flying _ = true

-- A commit is sent only while no window is open.
abbrev pub IsAlone : Flight → Option ℕ → Type 0
IsAlone (committing batch also_save safe_apply s) ends = ends ≡ none
IsAlone _ _ = Unit

-- Distinct changes, none of which is among the known ones.
abbrev pub AreNew : List PendingChange → List PendingChange → Type 0
AreNew known changes = Unique changes × All (Absent known) changes

pub record IsOrderly (b : Bar) : Type 0 where
  pub queue : AreNew b.committed_changes b.changes
  pub committed : Unique b.committed_changes
  pub in_flight : AreNew b.committed_changes (owed b.flight)
  pub trial :
      AreNew b.committed_changes (on_trial b.ends_at b.pending_action b.pending_commit_changes)
  pub alone : IsAlone b.flight b.ends_at
  pub waiting : b.busy ≡ is_flying b.flight

pub AreNew-Sublist :
    (known : List PendingChange) {xs ys : List PendingChange}
    → Sublistᴰ xs ys
    → AreNew known ys
    → AreNew known xs
AreNew-Sublist known s (u, h) = (Unique-Sublist s u, All-Sublist (Absent known) s h)

-- Once nothing is known, distinct changes are new.
pub AreNew-nil : (known changes : List PendingChange) → AreNew known changes → AreNew [] changes
AreNew-nil known changes (u, h) = (u, All-map (Absent known) (Absent []) (λ c e. refl) changes h)

pub Absent-not :
    (known : List PendingChange) (c : PendingChange)
    → not (any (λ id. id == c.id) (ids known)) ≡ true
    → Absent known c
Absent-not known c h = ground arith

pub AreNew-remove_many :
    (known batch changes : List PendingChange)
    → AreNew known changes
    → AreNew (known ++ batch) (remove_many (ids batch) changes)
unfolding remove_many
AreNew-remove_many known batch changes h =
    let p = λ (c : PendingChange). not (any (λ id. id == c.id) (ids batch)) in
    let (u, old) = AreNew-Sublist known (Sublist-select p changes) h in
    (
      u,
      All-zip (Absent known) (λ c. p c ≡ true) (Absent (known ++ batch))
          (λ c k e. Absent-append known batch c k (Absent-not batch c e)) (select p changes) old
          (select-passes p changes),
    )

pub AreNew-add :
    (known changes : List PendingChange) (id : String) (change : NewChange)
    → Absent changes (record { id = id; op = change.op; label = change.label })
    → Absent known (record { id = id; op = change.op; label = change.label })
    → AreNew known changes
    → AreNew known (add id change changes)
AreNew-add known changes id change h k (u, old) =
    go (add id change changes) (add-Added id change changes)
  where
    go : (ys : List PendingChange) → Added id change changes ys → AreNew known ys
    go ys (fewer zs s) = AreNew-Sublist known s (u, old)
    go ys appended =
        let c : PendingChange = record { id = id; op = change.op; label = change.label } in
        (
          Unique-append changes (c ∷ []) u (refl, tt) (h, tt),
          All-append (Absent known) changes (c ∷ []) old (k, tt),
        )

-- A flight that owes nothing.
abbrev pub OwesNone : Flight → Type 0
OwesNone f =
    ((known : List PendingChange) → AreNew known (owed f)) × ((ends : Option ℕ) → IsAlone f ends)

pub idle-OwesNone : OwesNone idle
idle-OwesNone = ((λ known. (tt, tt)), (λ ends. tt))

pub trial_closed :
    (known batch : List PendingChange) (ends : Option ℕ) (action : PendingAction)
    → ends ≡ none
    → AreNew known (on_trial ends action batch)
trial_closed known batch ends action h = rw h (tt, tt)

pub start-IsOrderly :
    (f : Flight) (b : Bar)
    → AreNew b.committed_changes (owed f)
    → IsAlone f b.ends_at
    → is_flying f ≡ true
    → IsOrderly b
    → IsOrderly (start f b)
unfolding start
start-IsOrderly f b n a w o = record {
  queue = o.queue;
  committed = o.committed;
  in_flight = n;
  trial = o.trial;
  alone = a;
  waiting = sym w;
}
