-- ===== src/Store/Pending/Persist.antt =====
-- What of the queue reaches the browser's storage.
use vyos_client.Base.{
  String, Option, some, ◌≢◌, arith, Bool, true, false, not, ◌&&◌, ◌||◌, ◌≡◌, ◌↔◌, inl, inr, refl,
  sym, ap, ◌∙◌, List, [], ◌∷◌, select, Bool-cases,
}
use mathlib.Core.List.{Memᴰ}
use vyos_client.Masking.{is_masked_path}
use vyos_client.Masking.Secrets.{SecretPath, SecretPath-is_masked_path}
use vyos_client.Base.Text.{eq-false_of_ne}
use vyos_client.Store.Pending.{PendingChange, has_no_text, partialize}

-- A change that carries a secret: a text at a masked path.
abbrev pub is_secret : PendingChange → Bool
is_secret c = not (has_no_text c.op.value) && is_masked_path c.op.path

kept_test :
    (c : PendingChange)
    → (has_no_text c.op.value || not (is_masked_path c.op.path)) ≡ not (is_secret c)
kept_test c = go (has_no_text c.op.value) (is_masked_path c.op.path)
  where
    go : (a b : Bool) → (a || not b) ≡ not (not a && b)
    go true b = refl
    go false b = refl

module _ {ℓ} {A : Type ℓ} (p : A → Bool) where
  mem_kept :
      (y : A) (ys : List A) (x : A)
      → p y ≡ true
      → (Memᴰ x (select p ys) → Memᴰ x ys × (p x ≡ true))
      → Memᴰ x (y ∷ select p ys)
      → Memᴰ x (y ∷ ys) × (p x ≡ true)
  mem_kept y ys x h ih (Memᴰ.head e) = (Memᴰ.head e, ap p e ∙ h)
  mem_kept y ys x h ih (Memᴰ.tail t) = let (t', e) = ih t in (Memᴰ.tail t', e)

  select-mem : (xs : List A) (x : A) → Memᴰ x (select p xs) → Memᴰ x xs × (p x ≡ true)
  select-mem [] x m = elim m [ ]
  select-mem (y ∷ ys) x m = elim (Bool-cases (p y)) [
    | inl h ↦ mem_kept y ys x h (select-mem ys x) (rw h at m)
    | inr h ↦ let (t, e) = select-mem ys x (rw h at m) in (Memᴰ.tail t, e)
  ]

  mem-select : (xs : List A) (x : A) → Memᴰ x xs → p x ≡ true → Memᴰ x (select p xs)
  mem-select [] x m h = elim m [ ]
  mem-select (y ∷ ys) x (Memᴰ.head e) h = let kept = ap p (sym e) ∙ h in rw kept (Memᴰ.head e)
  mem-select (y ∷ ys) x (Memᴰ.tail t) h = elim (Bool-cases (p y)) [
    | inl kept ↦ rw kept (Memᴰ.tail (mem-select ys x t h))
    | inr left_out ↦ rw left_out (mem-select ys x t h)
  ]

false_of_not : (b : Bool) → not b ≡ true → b ≡ false
false_of_not true h = sym h
false_of_not false h = refl

-- The storage holds exactly the queued changes that carry no secret.
pub mem-partialize_iff :
    (changes : List PendingChange) (c : PendingChange)
    → Memᴰ c (partialize changes) ↔ (Memᴰ c changes × (is_secret c ≡ false))
unfolding partialize
mem-partialize_iff changes c =
    let test = λ (d : PendingChange). has_no_text d.op.value || not (is_masked_path d.op.path) in
    (
      (λ m.
          let (t, e) = select-mem test changes c m in
          (t, false_of_not (is_secret c) (sym (kept_test c) ∙ e))),
      (λ m.
          let f : is_secret c ≡ false = m.1 in
          mem-select test changes c m.0 (kept_test c ∙ ap not f)),
    )

has_no_text-some : (o : Option String) (v : String) → o ≡ some v → v ≢ "" → has_no_text o ≡ false
has_no_text-some o v e h = rw e (eq-false_of_ne v "" h)

-- A queued change with a text that is not empty, whose path ends in one of the names of
-- shared/sensitive-fields.json, in any case and with `_` for `-`, or in `value` below a name that has
-- one of its patterns in it, never reaches the browser's storage.
pub partialize-secret :
    (changes : List PendingChange) (c : PendingChange) (v : String)
    → SecretPath c.op.path
    → c.op.value ≡ some v
    → v ≢ ""
    → ¬ Memᴰ c (partialize changes)
partialize-secret changes c v path e text stored =
    let masked = SecretPath-is_masked_path c.op.path path in
    let kept = ((mem-partialize_iff changes c).0 stored).1 in
    let full = has_no_text-some c.op.value v e text in
    let secret : is_secret c ≡ true = rw (full, masked) refl in
    absurd (ground (arith, secret, kept))
