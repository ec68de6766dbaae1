-- ===== src/Commit/Life/Membership.antt =====
-- store/pendingChanges.ts: which ids a list of changes holds.
use vyos_client.Base.{
  String, Bool, true, false, not, ◌&&◌, ◌||◌, ◌≡◌, refl, ap, List, [], ◌∷◌, ◌++◌, any, All,
  Bool-cases, inl, inr, ◌==◌, eq_iff, arith,
}
use mathlib.Core.List.{Sublistᴰ}
use vyos_client.Store.Pending.{PendingChange, remove_many}
use vyos_client.Store.Pending.Removal.{ids}
use vyos_client.Commit.Steps.{Absent}

unfoldable pub has : String → List PendingChange → Bool
has id changes = any (λ c. c.id == id) changes

pub has-append :
    (id : String) (xs ys : List PendingChange) → has id (xs ++ ys) ≡ (has id xs || has id ys)
unfolding has
has-append id [] ys = refl
has-append id (x ∷ xs) ys = let ih = has-append id xs ys in ground arith

pub has-Sublist :
    (id : String) {xs ys : List PendingChange}
    → Sublistᴰ xs ys
    → has id xs ≡ true
    → has id ys ≡ true
unfolding has
has-Sublist id Sublistᴰ.slnil h = h
has-Sublist id (Sublistᴰ.cons-cons {l₁ = xs} {l₂ = ys} e s) h =
    let ih : has id xs ≡ true → has id ys ≡ true = has-Sublist id s in
    let same = ap (λ c. c.id) e in ground arith
has-Sublist id (Sublistᴰ.cons {l₁ = xs} {l₂ = ys} s) h =
    let ih : has id xs ≡ true → has id ys ≡ true = has-Sublist id s in ground arith

known-has :
    (id : String) (changes : List PendingChange) → any (λ i. i == id) (ids changes) ≡ has id changes
unfolding has
known-has id [] = refl
known-has id (c ∷ changes) = ap (λ b. (c.id == id) || b) (known-has id changes)

same_id-has :
    (x : PendingChange) (id : String) (changes : List PendingChange)
    → (x.id == id) ≡ true
    → has x.id changes ≡ has id changes
same_id-has x id changes h =
    let e : x.id ≡ id = ground (arith, eq_iff x.id id) in ap (λ i. has i changes) e

pub has-remove_many :
    (id : String) (batch xs : List PendingChange)
    → has id (remove_many (ids batch) xs) ≡ (has id xs && not (has id batch))
unfolding has remove_many
has-remove_many id batch [] = refl
has-remove_many id batch (x ∷ xs) =
    let ih = has-remove_many id batch xs in
    let known = known-has x.id batch in
    let same = same_id-has x id batch in
    elim (Bool-cases (any (λ i. i == x.id) (ids batch))) [
      | inl h ↦ rw h (ground arith)
      | inr h ↦ rw h (ground arith)
    ]

-- Where no queued change is among the committed ones.
pub apart-has :
    (id : String) (committed changes : List PendingChange)
    → All (Absent committed) changes
    → has id committed ≡ true
    → has id changes ≡ false
unfolding has
apart-has id committed [] a h = refl
apart-has id committed (x ∷ xs) (a, rest) h =
    let ih = apart-has id committed xs rest h in
    let known = known-has x.id committed in let same = same_id-has x id committed in ground arith
