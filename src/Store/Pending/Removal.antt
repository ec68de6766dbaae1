-- ===== src/Store/Pending/Removal.antt =====
-- Removing the committed changes from the queue.
use vyos_client.Base.{
  String, Bool, true, false, not, ◌≡◌, refl, ap, ◌∙◌, List, [], ◌∷◌, ◌++◌, map, any, select, ◌==◌,
  eq_iff, arith, All, All-map, Bool-cases, inl, inr,
}
use vyos_client.Store.Pending.{PendingChange, remove_many}

select-append {ℓ} :
    {A : Type ℓ} (p : A → Bool) (xs ys : List A) → select p (xs ++ ys) ≡ select p xs ++ select p ys
select-append p [] ys = refl
select-append p (x ∷ xs) ys = elim (Bool-cases (p x)) [
  | inl h ↦ rw h (ap (◌∷◌ x) (select-append p xs ys))
  | inr h ↦ rw h (select-append p xs ys)
]

select-All {ℓ} :
    {A : Type ℓ} (p : A → Bool) (xs : List A) → All (λ x. p x ≡ true) xs → select p xs ≡ xs
select-All p [] h = refl
select-All p (x ∷ xs) (h, hs) = rw h (ap (◌∷◌ x) (select-All p xs hs))

select-none {ℓ} :
    {A : Type ℓ} (p : A → Bool) (xs : List A) → All (λ x. p x ≡ false) xs → select p xs ≡ []
select-none p [] h = refl
select-none p (x ∷ xs) (h, hs) = rw h (select-none p xs hs)

abbrev pub ids : List PendingChange → List String
ids = map (λ c. c.id)

-- None of the ids is among the first.
abbrev pub Fresh : List String → List PendingChange → Type 0
Fresh known changes = All (λ c. any (λ id. id == c.id) known ≡ false) changes

any-weaken :
    (known : List String) (k : String) (changes : List PendingChange)
    → All (λ c. any (λ id. id == c.id) known ≡ true) changes
    → All (λ c. any (λ id. id == c.id) (k ∷ known) ≡ true) changes
any-weaken known k changes h =
    All-map (λ c. any (λ id. id == c.id) known ≡ true)
      (λ c. any (λ id. id == c.id) (k ∷ known) ≡ true) (λ c e. ground arith) changes h

ids-known :
    (changes : List PendingChange) → All (λ c. any (λ id. id == c.id) (ids changes) ≡ true) changes
ids-known [] = tt
ids-known (c ∷ changes) =
    (ground (arith, eq_iff c.id c.id), any-weaken (ids changes) c.id changes (ids-known changes))

-- When a commit returns, removing what was committed leaves exactly the changes that were queued
-- while the request was on its way, in their order.
pub remove_many-committed :
    (committing queued_since : List PendingChange)
    → Fresh (ids committing) queued_since
    → remove_many (ids committing) (committing ++ queued_since) ≡ queued_since
unfolding remove_many
remove_many-committed committing queued_since fresh =
    select-append (λ c. not (any (λ id. id == c.id) (ids committing))) committing queued_since
    ∙ ap (λ xs. xs ++ select (λ c. not (any (λ id. id == c.id) (ids committing))) queued_since)
        (select-none (λ c. not (any (λ id. id == c.id) (ids committing))) committing
          (All-map (λ c. any (λ id. id == c.id) (ids committing) ≡ true)
            (λ c. not (any (λ id. id == c.id) (ids committing)) ≡ false) (λ c e. ap not e)
            committing (ids-known committing)))
    ∙ select-All (λ c. not (any (λ id. id == c.id) (ids committing))) queued_since
        (All-map (λ c. any (λ id. id == c.id) (ids committing) ≡ false)
          (λ c. not (any (λ id. id == c.id) (ids committing)) ≡ true) (λ c e. ap not e) queued_since
          fresh)
