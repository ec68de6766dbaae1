-- ===== src/Store/Pending/Enable.antt =====
-- The "Enable" and "Disable" buttons, as the form shows them.
use vyos_client.Base.{
  String, Bool, true, false, not, ◌&&◌, ◌≡◌, refl, subst, ap, ◌∙◌, Option, none, some, List, ◌∷◌,
  ◌++◌, if◌then◌else◌, arith,
}
use vyos_client.Config.Op.{ConfigOp, set, delete, comment, set_node}
use vyos_client.Config.Diff.{toggle_op}
use vyos_client.Store.Pending.{
  PendingChange, NewChange, latest_pending_op, cancels, add, Enabled, with_pending_enable,
  has_pending_set, has_pending_delete, has_kind, same_path, is_valueless,
}
use vyos_client.Store.Pending.Latest.{latest-add_self, Asks}
use vyos_client.Store.Pending.Cancel.{latest-taken_back}

-- What the latest op makes of the flag.
abbrev pub decided : Option ConfigOp → Bool → Bool
decided none enabled = enabled
decided (some op) enabled = elim op.op [ set ↦ true | delete ↦ false | comment ↦ enabled ]

decided-Asks :
    (op : ConfigOp) (o : Option ConfigOp) (enabled : Bool)
    → Asks op o
    → decided o enabled ≡ decided (some op) enabled
decided-Asks op none enabled h = absurd h
decided-Asks op (some latest) enabled h =
    ap (λ k. elim k [ set ↦ true | delete ↦ false | comment ↦ enabled ]) h.0

decided-delete :
    (o : Option ConfigOp) (enabled : Bool) → has_kind delete o ≡ true → decided o enabled ≡ false
decided-delete none enabled h = cc
decided-delete (some op) enabled h = ground arith

decided-toggle_op :
    (path : List String) (on enabled : Bool) → decided (some (toggle_op path on)) enabled ≡ on
decided-toggle_op path true enabled = refl
decided-toggle_op path false enabled = refl

toggle_op-path : (path : List String) (on : Bool) → (toggle_op path on).path ≡ path
toggle_op-path path true = refl
toggle_op-path path false = refl

module _ {T : Type 0} (e : Enabled T)
    (law : (t : T) (b : Bool) → e.enabled (e.with_enabled t b) ≡ b) where
  pub with_pending_enable-decided :
      (parsed : T) (path : List String) (changes : List PendingChange)
      → e.enabled (with_pending_enable e parsed path changes)
        ≡ decided (latest_pending_op changes path) (e.enabled parsed)
  unfolding with_pending_enable has_pending_set has_pending_delete
  with_pending_enable-decided parsed path changes = go (latest_pending_op changes path)
    where
      go :
          (o : Option ConfigOp)
          → e.enabled (
              if has_kind delete o
              then if e.enabled parsed then e.with_enabled parsed false else parsed
              else if not (e.enabled parsed) && has_kind set o
              then e.with_enabled parsed true
              else parsed)
            ≡ decided o (e.enabled parsed)
      go none = ground arith
      go (some op) = ground (arith, law parsed false, law parsed true)

  -- After a click on "Enable" or "Disable" that takes nothing back the form shows what was clicked,
  -- whatever was queued before.
  pub with_pending_enable-clicked :
      (parsed : T) (path : List String) (id label : String) (changes : List PendingChange)
      (on : Bool)
      → cancels changes (toggle_op path on) ≡ false
      → e.enabled (
          with_pending_enable e parsed path
            (add id (record { op = toggle_op path on; label = label }) changes))
        ≡ on
  with_pending_enable-clicked parsed path id label changes on h =
      let change : NewChange = record { op = toggle_op path on; label = label } in
      let asks =
        subst (λ p. Asks (toggle_op path on) (latest_pending_op (add id change changes) p))
          (toggle_op-path path on) (latest-add_self id change changes h) in
      with_pending_enable-decided parsed path (add id change changes)
      ∙ decided-Asks (toggle_op path on) _ (e.enabled parsed) asks
      ∙ decided-toggle_op path on (e.enabled parsed)

  -- Where an earlier delete of the same path is still queued, "Enable" takes only the latest delete
  -- back, and the form goes on showing the feature as off.
  pub with_pending_enable-stays_off :
      (parsed : T) (path : List String) (id label : String) (earlier later : List PendingChange)
      (taken : PendingChange)
      → same_path taken.op.path path ≡ true
      → is_valueless delete taken.op ≡ true
      → latest_pending_op later path ≡ none
      → has_pending_delete earlier path ≡ true
      → e.enabled (
          with_pending_enable e parsed path
            (add id (record { op = set_node path; label = label }) (earlier ++ taken ∷ later)))
        ≡ false
  unfolding has_pending_delete
  with_pending_enable-stays_off parsed path id label earlier later taken its_path deleted last_one
        off =
      let change : NewChange = record { op = set_node path; label = label } in
      with_pending_enable-decided parsed path (add id change (earlier ++ taken ∷ later))
      ∙ ap (λ o. decided o (e.enabled parsed))
          (latest-taken_back path taken later its_path last_one id change earlier refl refl deleted)
      ∙ decided-delete (latest_pending_op earlier path) (e.enabled parsed) off
