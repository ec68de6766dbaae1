-- ===== src/Store/Pending/Latest.antt =====
-- Which op counts for a path after a change is queued.
use vyos_client.Base.{
  String, true, false, ◌≡◌, refl, ap, Option, none, some, List, [], ◌∷◌, ◌++◌, if◌then◌else◌,
  eq_iff, arith, Bool-cases, inl, inr,
}
use vyos_client.Config.Op.{ConfigOp, ConfigOpKind}
use vyos_client.Store.Pending.{
  PendingChange, NewChange, same_path, latest_pending_op, last_change, repeats, cancels,
  drop_latest, add, same_kind, same_value,
}

-- An entry at the end decides for its own path, and for no other.
pub latest-snoc :
    (changes : List PendingChange) (c : PendingChange) (p : List String)
    → latest_pending_op (changes ++ c ∷ []) p
      ≡ (if same_path c.op.path p then some c.op else latest_pending_op changes p)
unfolding latest_pending_op
latest-snoc [] c p = refl
latest-snoc (d ∷ changes) c p = ground (arith, latest-snoc changes c p)

pub same_path_refl : (p : List String) → same_path p p ≡ true
unfolding same_path
same_path_refl p = (eq_iff _ _).1 refl

same_path_trans : (p q t : List String) → same_path p q ≡ true → same_path p t ≡ same_path q t
unfolding same_path
same_path_trans p q t h = rw ((eq_iff _ _).0 h)

-- Dropping the latest entry for a path leaves the other paths alone.
latest-drop_latest :
    (changes : List PendingChange) (p q : List String)
    → same_path p q ≡ false
    → latest_pending_op (drop_latest changes p) q ≡ latest_pending_op changes q
unfolding latest_pending_op drop_latest
latest-drop_latest [] p q h = refl
latest-drop_latest (c ∷ changes) p q h =
    ground (arith, latest-drop_latest changes p q, same_path_trans c.op.path p q)

-- Queueing a change leaves what is pending for every other path as it was, also when the change is
-- ignored as a double click or takes a queued delete back.
pub latest-add_ne :
    (id : String) (change : NewChange) (changes : List PendingChange) (q : List String)
    → same_path change.op.path q ≡ false
    → latest_pending_op (add id change changes) q ≡ latest_pending_op changes q
unfolding add
latest-add_ne id change changes q h = elim (Bool-cases (repeats (last_change changes) change.op)) [
  | inl again ↦ rw again
  | inr fresh ↦ rw fresh (elim (Bool-cases (cancels changes change.op)) [
    | inl back ↦ rw back (latest-drop_latest changes change.op.path q h)
    | inr kept ↦
        rw (
          kept,
          latest-snoc changes (record { id = id; op = change.op; label = change.label }) q,
          h,
        )
  ])
]

-- The last entry is the latest one for its own path.
latest-last_change :
    (changes : List PendingChange) (prev : PendingChange) (p : List String)
    → last_change changes ≡ some prev
    → same_path prev.op.path p ≡ true
    → latest_pending_op changes p ≡ some prev.op
unfolding latest_pending_op
latest-last_change [] prev p e h = cc
latest-last_change (c ∷ []) prev p e h = ground arith
latest-last_change (c ∷ d ∷ changes) prev p e h = rw (latest-last_change (d ∷ changes) prev p e h)

same_kind→≡ : (a b : ConfigOpKind) → same_kind a b ≡ true → a ≡ b
same_kind→≡ a b h = ground arith

same_value→≡ : (a b : Option String) → same_value a b ≡ true → a ≡ b
same_value→≡ none none h = refl
same_value→≡ none (some w) h = cc
same_value→≡ (some v) none h = cc
same_value→≡ (some v) (some w) h = ap some ((eq_iff v w).0 h)

-- The latest op for a path does what was asked: its kind and its value.
abbrev pub Asks : ConfigOp → Option ConfigOp → Type 0
Asks op none = ⊥
Asks op (some latest) = (latest.op ≡ op.op) × (latest.value ≡ op.value)

pub repeats-Asks :
    (o : Option PendingChange) (changes : List PendingChange) (op : ConfigOp)
    → last_change changes ≡ o
    → repeats o op ≡ true
    → Asks op (latest_pending_op changes op.path)
unfolding repeats
repeats-Asks none changes op e h = cc
repeats-Asks (some prev) changes op e h =
    rw (latest-last_change changes prev op.path e (ground arith)) (
      same_kind→≡ prev.op.op op.op (ground arith),
      same_value→≡ prev.op.value op.value (ground arith),
    )

-- A queued change that takes no delete back is what counts for its path.
pub latest-add_self :
    (id : String) (change : NewChange) (changes : List PendingChange)
    → cancels changes change.op ≡ false
    → Asks change.op (latest_pending_op (add id change changes) change.op.path)
unfolding add
latest-add_self id change changes kept =
    elim (Bool-cases (repeats (last_change changes) change.op)) [
      | inl again ↦ rw again (repeats-Asks (last_change changes) changes change.op refl again)
      | inr fresh ↦
          rw
            (
              fresh,
              kept,
              latest-snoc changes (record { id = id; op = change.op; label = change.label })
                  change.op.path,
              same_path_refl,
            )
            (refl, refl)
    ]
