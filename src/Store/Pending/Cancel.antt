-- ===== src/Store/Pending/Cancel.antt =====
-- An "Enable" that takes a queued delete back.
use vyos_client.Base.{
  String, true, false, ◌≡◌, refl, ap, ◌∙◌, none, some, List, [], ◌∷◌, ◌++◌, arith, Bool-cases,
  Option-cases, inl, inr,
}
use vyos_client.Config.Op.{ConfigOp, set, delete}
use vyos_client.Store.Pending.{
  PendingChange, NewChange, same_path, latest_pending_op, last_change, repeats, cancels,
  drop_latest, is_valueless, add,
}
use vyos_client.Store.Pending.Latest.{Asks, repeats-Asks}

-- The queue around the latest entry for a path.
pub record Around (changes : List PendingChange) (path : List String) (op : ConfigOp) : Type 0 where
  pub earlier : List PendingChange
  pub taken : PendingChange
  pub later : List PendingChange
  pub whole : changes ≡ earlier ++ taken ∷ later
  pub dropped : drop_latest changes path ≡ earlier ++ later
  pub its_op : taken.op ≡ op
  pub its_path : same_path taken.op.path path ≡ true
  pub last_one : latest_pending_op later path ≡ none

drop_latest_later :
    (c : PendingChange) (changes : List PendingChange) (path : List String) (op : ConfigOp)
    → latest_pending_op changes path ≡ some op
    → drop_latest (c ∷ changes) path ≡ c ∷ drop_latest changes path
unfolding drop_latest
drop_latest_later c changes path op h = rw (h, drop_latest)

around :
    (changes : List PendingChange) (path : List String) (op : ConfigOp)
    → latest_pending_op changes path ≡ some op
    → Around changes path op
unfolding latest_pending_op drop_latest
around [] path op h = cc
around (c ∷ changes) path op h = elim (Option-cases (latest_pending_op changes path)) [
  | inr (op', there) ↦
      let a = around changes path op (ground arith) in
      record {
        earlier = c ∷ a.earlier;
        taken = a.taken;
        later = a.later;
        whole = ap (◌∷◌ c) a.whole;
        dropped = drop_latest_later c changes path op' there ∙ ap (◌∷◌ c) a.dropped;
        its_op = a.its_op;
        its_path = a.its_path;
        last_one = a.last_one;
      }
  | inl none_later ↦ record {
    earlier = [];
    taken = c;
    later = changes;
    whole = refl;
    dropped = ground arith;
    its_op = ground arith;
    its_path = ground arith;
    last_one = none_later;
  }
]

-- The op that is taken back.
cancelled :
    (changes : List PendingChange) (op : ConfigOp)
    → cancels changes op ≡ true
    → (latest : ConfigOp) × (latest_pending_op changes op.path ≡ some latest)
      × (is_valueless delete latest ≡ true)
      × (is_valueless set op ≡ true)
unfolding cancels
cancelled changes op h = elim (Option-cases (latest_pending_op changes op.path)) [
  | inl missing ↦ ground arith
  | inr (latest, there) ↦ (latest, there, ground arith, ground arith)
]

-- It is never mistaken for a double click.
cancels→not_repeats :
    (changes : List PendingChange) (op : ConfigOp)
    → cancels changes op ≡ true
    → repeats (last_change changes) op ≡ false
cancels→not_repeats changes op h =
    let (latest, there, deleted, asked) = cancelled changes op h in
    elim (Bool-cases (repeats (last_change changes) op)) [
      | inr fresh ↦ fresh
      | inl again ↦
          let asks : Asks op (some latest) =
            rw there at (repeats-Asks (last_change changes) changes op refl again) in
          ground arith
    ]

-- Enabling a path whose latest op is a valueless delete removes just that delete from the queue:
-- nothing is added, and every other entry stays, in its order.
pub add-takes_back :
    (id : String) (change : NewChange) (changes : List PendingChange)
    → cancels changes change.op ≡ true
    → (earlier : List PendingChange) × (taken : PendingChange) × (later : List PendingChange)
      × (changes ≡ earlier ++ taken ∷ later)
      × (add id change changes ≡ earlier ++ later)
      × (is_valueless delete taken.op ≡ true)
      × (same_path taken.op.path change.op.path ≡ true)
      × (latest_pending_op later change.op.path ≡ none)
unfolding add
add-takes_back id change changes h =
    let (latest, there, deleted, asked) = cancelled changes change.op h in
    let a = around changes change.op.path latest there in
    (
      a.earlier,
      a.taken,
      a.later,
      a.whole,
      rw (cancels→not_repeats changes change.op h, h) a.dropped,
      rw a.its_op deleted,
      a.its_path,
      a.last_one,
    )

module _ (path : List String) (taken : PendingChange) (later : List PendingChange)
    (its_path : same_path taken.op.path path ≡ true)
    (last_one : latest_pending_op later path ≡ none) where
  latest-at :
      (earlier : List PendingChange)
      → latest_pending_op (earlier ++ taken ∷ later) path ≡ some taken.op
  unfolding latest_pending_op
  latest-at [] = ground arith
  latest-at (c ∷ earlier) = ground (arith, latest-at earlier)

  drop_latest-at :
      (earlier : List PendingChange)
      → drop_latest (earlier ++ taken ∷ later) path ≡ earlier ++ later
  unfolding drop_latest
  drop_latest-at [] = ground arith
  drop_latest-at (c ∷ earlier) = ground (arith, latest-at earlier, drop_latest-at earlier)

  latest-without :
      (earlier : List PendingChange)
      → latest_pending_op (earlier ++ later) path ≡ latest_pending_op earlier path
  unfolding latest_pending_op
  latest-without [] = last_one
  latest-without (c ∷ earlier) = ground (arith, latest-without earlier)

  -- What was queued for the path before the delete counts again once it is taken back.
  pub latest-taken_back :
      (id : String) (change : NewChange) (earlier : List PendingChange)
      → change.op.path ≡ path
      → is_valueless set change.op ≡ true
      → is_valueless delete taken.op ≡ true
      → latest_pending_op (add id change (earlier ++ taken ∷ later)) path
        ≡ latest_pending_op earlier path
  unfolding add
  latest-taken_back id change earlier at asked deleted =
      let changes = earlier ++ taken ∷ later in
      let back : cancels changes change.op ≡ true =
        unfold cancels in rw (at, latest-at earlier, asked) deleted in
      rw (cancels→not_repeats changes change.op back, back, at, drop_latest-at earlier)
        (latest-without earlier)
