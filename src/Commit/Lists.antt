-- ===== src/Commit/Lists.antt =====
-- store/pendingChanges.ts: what the queue's operations leave of it, and changes whose ids differ.
use vyos_client.Base.{
  subst, sym, ap, String, Bool, refl, List, [], ◌∷◌, ◌++◌, select, eq_iff, arith, All, Bool-cases,
  Option-cases, inl, inr,
}
use mathlib.Core.List.{Sublistᴰ}
use mathlib.Core.List.Sublistᴰ
use vyos_client.Store.Pending.{
  PendingChange, NewChange, latest_pending_op, same_path, drop_latest, add, repeats, last_change,
  cancels,
}
use vyos_client.Commit.Steps.{Absent}

pub Sublist-select {ℓ} : {A : Type ℓ} (p : A → Bool) (xs : List A) → Sublistᴰ (select p xs) xs
Sublist-select p [] = Sublistᴰ.slnil
Sublist-select p (x ∷ xs) = elim (Bool-cases (p x)) [
  | inl h ↦ rw h (Sublistᴰ.cons-cons refl (Sublist-select p xs))
  | inr h ↦ rw h (Sublistᴰ.cons (Sublist-select p xs))
]

pub Sublist-drop_latest :
    (xs : List PendingChange) (path : List String) → Sublistᴰ (drop_latest xs path) xs
unfolding drop_latest
Sublist-drop_latest [] path = Sublistᴰ.slnil
Sublist-drop_latest (c ∷ xs) path = elim (Option-cases (latest_pending_op xs path)) [
  | inr (op, e) ↦ rw (e, drop_latest) (Sublistᴰ.cons-cons refl (Sublist-drop_latest xs path))
  | inl e ↦
      rw (e, drop_latest)
        (elim (Bool-cases (same_path c.op.path path)) [
          | inl h ↦ rw h (Sublistᴰ.cons (Sublistᴰ.refl xs))
          | inr h ↦ rw h (Sublistᴰ.refl (c ∷ xs))
        ])
]

pub All-Sublist {ℓ κ} :
    {A : Type ℓ} (P : A → Type κ) {xs ys : List A} → Sublistᴰ xs ys → All P ys → All P xs
All-Sublist P Sublistᴰ.slnil h = tt
All-Sublist P (Sublistᴰ.cons-cons e s) (p, h) = (subst P (sym e) p, All-Sublist P s h)
All-Sublist P (Sublistᴰ.cons s) (p, h) = All-Sublist P s h

-- No two changes have one id.
abbrev pub Unique : List PendingChange → Type 0
Unique [] = Unit
Unique (c ∷ changes) = Absent changes c × Unique changes

pub Absent-append :
    (xs ys : List PendingChange) (c : PendingChange)
    → Absent xs c
    → Absent ys c
    → Absent (xs ++ ys) c
Absent-append [] ys c h k = k
Absent-append (x ∷ xs) ys c h k =
    let ih : Absent xs c → Absent (xs ++ ys) c = λ t. Absent-append xs ys c t k in ground arith

pub Absent-Sublist :
    {xs ys : List PendingChange} (c : PendingChange) → Sublistᴰ xs ys → Absent ys c → Absent xs c
Absent-Sublist c Sublistᴰ.slnil h = refl
Absent-Sublist c (Sublistᴰ.cons-cons {l₁ = xs} {l₂ = ys} e s) h =
    let ih : Absent ys c → Absent xs c = Absent-Sublist c s in
    let e' = ap (λ d. d.id) e in rw e' (ground arith)
Absent-Sublist c (Sublistᴰ.cons {l₁ = xs} {l₂ = ys} s) h =
    let ih : Absent ys c → Absent xs c = Absent-Sublist c s in ground arith

pub Unique-Sublist : {xs ys : List PendingChange} → Sublistᴰ xs ys → Unique ys → Unique xs
Unique-Sublist Sublistᴰ.slnil u = tt
Unique-Sublist (Sublistᴰ.cons-cons {b = b} {l₁ = xs} e s) (h, u) =
    (subst (Absent xs) (sym e) (Absent-Sublist b s h), Unique-Sublist s u)
Unique-Sublist (Sublistᴰ.cons s) (h, u) = Unique-Sublist s u

-- Ids differ whichever of the two is compared with the other.
Absent-swap :
    (x : PendingChange) (xs ys : List PendingChange)
    → All (Absent (x ∷ xs)) ys
    → Absent ys x × All (Absent xs) ys
Absent-swap x xs [] h = (refl, tt)
Absent-swap x xs (y ∷ ys) (h, hs) =
    let (ih, rest) = Absent-swap x xs ys hs in
    (ground (arith, eq_iff x.id y.id, eq_iff y.id x.id), (ground arith, rest))

pub Unique-append :
    (xs ys : List PendingChange) → Unique xs → Unique ys → All (Absent xs) ys → Unique (xs ++ ys)
Unique-append [] ys u v h = v
Unique-append (x ∷ xs) ys (a, u) v h =
    let (b, rest) = Absent-swap x xs ys h in
    (Absent-append xs ys x a b, Unique-append xs ys u v rest)

-- What `add` returns: nothing new, an entry less, or the new entry behind the others.
pub data Added (id : String) (change : NewChange) (xs : List PendingChange)
    : List PendingChange → Type 0 where
  fewer : (ys : List PendingChange) → Sublistᴰ ys xs → Added id change xs ys
  appended :
      Added id change xs (xs ++ record { id = id; op = change.op; label = change.label } ∷ [])

pub add-Added :
    (id : String) (change : NewChange) (xs : List PendingChange)
    → Added id change xs (add id change xs)
unfolding add
add-Added id change xs = elim (Bool-cases (repeats (last_change xs) change.op)) [
  | inl h ↦ rw h (fewer xs (Sublistᴰ.refl xs))
  | inr h ↦ rw h (elim (Bool-cases (cancels xs change.op)) [
    | inl k ↦ rw k (fewer (drop_latest xs change.op.path) (Sublist-drop_latest xs change.op.path))
    | inr k ↦ rw k appended
  ])
]
