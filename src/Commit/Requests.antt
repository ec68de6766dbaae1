-- ===== src/Commit/Requests.antt =====
-- components/PendingChangesBar.tsx and lib/vyosApi.ts: what the bar's requests carry, and what it
-- shows of a secret.
use vyos_client.Base.{
  any, Option, none, ℕ, String, Bool, true, false, not, ◌||◌, ◌≡◌, refl, ap, List, [], ◌∷◌, map,
  some, All, Bool-cases, inl, inr, arith, eqb, ◌==◌, or_else,
}
use vyos_client.Base.Text.{join, includes}
use vyos_client.Config.Op.{ConfigOp, ConfigOpKind}
use vyos_client.Masking.{is_masked_path, mask_value, mask_placeholder}
use vyos_client.Store.Pending.{PendingChange}
use vyos_client.Commit.{
  SafeApplyInput, seconds, default_seconds, clamp_confirm_seconds, in_range, valid, safe_seconds,
  confirm_field, request, commit_request, rollback_request, Bar, has_invalid_quote, quoted_value,
  invalid_quote_changes, is_empty, described_value, describe_change, default_confirm_seconds,
}
use vyos_client.Commit.Handlers.{run_commit, run_rollback, rollback_confirm_seconds, start}
use vyos_client.Commit.Steps.{step, can_commit, click_commit, allowed, handle}
use vyos_client.Commit.Guards.{can_commit-parts}

any-All {ℓ} :
    {A : Type ℓ} (p : A → Bool) (xs : List A) → any p xs ≡ false → All (λ x. p x ≡ false) xs
any-All p [] h = tt
any-All p (x ∷ xs) h = (ground arith, any-All p xs (ground arith))

-- A text without a single quote, or none.
abbrev pub IsPlain : Option String → Type 0
IsPlain none = Unit
IsPlain (some v) = includes v "'" ≡ false

-- No single quote stands in the value or in a segment of the path.
abbrev pub IsQuoteFree : ConfigOp → Type 0
IsQuoteFree op = IsPlain op.value × All (λ segment. includes segment "'" ≡ false) op.path

quoted_value-IsPlain : (value : Option String) → quoted_value value ≡ false → IsPlain value
quoted_value-IsPlain none h = tt
quoted_value-IsPlain (some v) h = h

has_invalid_quote-IsQuoteFree : (op : ConfigOp) → has_invalid_quote op ≡ false → IsQuoteFree op
unfolding has_invalid_quote
has_invalid_quote-IsQuoteFree op h =
    let path : any (λ segment. includes segment "'") op.path ≡ false = ground arith in
    (
      quoted_value-IsPlain op.value (ground arith),
      any-All (λ segment. includes segment "'") op.path path,
    )

quote_free :
    (changes : List PendingChange)
    → is_empty (invalid_quote_changes changes) ≡ true
    → All IsQuoteFree (map (λ c. c.op) changes)
unfolding invalid_quote_changes
quote_free [] h = tt
quote_free (c ∷ changes) h = elim (Bool-cases (has_invalid_quote c.op)) [
  | inl e ↦ absurd (let k : false ≡ true = rw e at h in cc)
  | inr e ↦ (has_invalid_quote-IsQuoteFree c.op e, quote_free changes (rw e at h))
]

confirm_field-in_range : (s : ℕ) → in_range s ≡ true → confirm_field (some s) ≡ some s
unfolding confirm_field
confirm_field-in_range s h = elim (Bool-cases (eqb s 0)) [
  | inl e ↦ absurd (ground arith)
  | inr e ↦ rw e refl
]

clamp-in_range : (s : ℕ) → in_range (clamp_confirm_seconds s) ≡ true
unfolding clamp_confirm_seconds
clamp-in_range s = ground arith

-- The seconds that a valid field asks for arrive at the server.
safe_seconds-sent :
    (on : Bool) (s : ℕ)
    → (on ≡ true → in_range s ≡ true)
    → confirm_field (safe_seconds on s) ≡ safe_seconds on s
unfolding confirm_field
safe_seconds-sent true s h = confirm_field-in_range s (h refl)
safe_seconds-sent false s h = refl

valid-in_range :
    (i : SafeApplyInput) → valid i ≡ true → i.enabled ≡ true → in_range (seconds i) ≡ true
unfolding valid
valid-in_range i h e = let k : (not true || in_range (seconds i)) ≡ true = rw e at h in k

-- No window is asked for, or one of a length that the backend accepts.
abbrev pub IsWindow : Option ℕ → Type 0
IsWindow none = Unit
IsWindow (some s) = in_range s ≡ true

safe_seconds-IsWindow :
    (on : Bool) (s : ℕ) → (on ≡ true → in_range s ≡ true) → IsWindow (safe_seconds on s)
safe_seconds-IsWindow true s h = h refl
safe_seconds-IsWindow false s h = tt

-- Where a commit button can be clicked, the request that it sends holds every queued operation,
-- none of them with a single quote in its value or its path; it asks for a confirm window exactly
-- if "Safe apply" is on, and then for one of 10 to 600 seconds: the safety net is never dropped on
-- the way.
pub click_commit-request :
    (also_save : Bool) (b : Bar)
    → can_commit b ≡ true
    → (request (step (click_commit also_save) b).flight
        ≡ some (
            commit_request
              (map (λ c. c.op) b.changes)
              (safe_seconds b.safe_apply_input.enabled (seconds b.safe_apply_input))))
      × All IsQuoteFree (map (λ c. c.op) b.changes)
      × IsWindow (safe_seconds b.safe_apply_input.enabled (seconds b.safe_apply_input))
unfolding step allowed handle run_commit start request
click_commit-request also_save b h =
    let (_, _, v, q) = can_commit-parts b h in
    let r = valid-in_range b.safe_apply_input v in
    (
      rw h (
          ap (λ s. some (commit_request (map (λ c. c.op) b.changes) s))
            (safe_seconds-sent b.safe_apply_input.enabled (seconds b.safe_apply_input) r)),
      quote_free b.changes q,
      safe_seconds-IsWindow b.safe_apply_input.enabled (seconds b.safe_apply_input) r,
    )

rollback_seconds-in_range : (i : SafeApplyInput) → in_range (rollback_confirm_seconds i) ≡ true
unfolding rollback_confirm_seconds default_seconds
rollback_seconds-in_range i = elim (Bool-cases (in_range (seconds i))) [
  | inl e ↦ rw e e
  | inr e ↦ rw e (clamp-in_range (or_else i.reported default_confirm_seconds))
]

-- A rollback always asks for a confirm window, of 10 to 600 seconds, whatever the field holds.
pub run_rollback-request :
    (b : Bar)
    → (s : ℕ) × (request (run_rollback b).flight ≡ some (rollback_request (some s)))
      × (in_range s ≡ true)
unfolding run_rollback start request
run_rollback-request b =
    let s = rollback_confirm_seconds b.safe_apply_input in
    let h = rollback_seconds-in_range b.safe_apply_input in
    (s, ap (λ o. some (rollback_request o)) (confirm_field-in_range s h), h)

described_value-masked :
    (path : List String) (v : String)
    → is_masked_path path ≡ true
    → (v == "") ≡ false
    → described_value path (some v) ≡ join "" (" '" ∷ mask_placeholder ∷ "'" ∷ [])
unfolding described_value mask_value
described_value-masked path v m h = rw h (rw m refl)

-- What the bar shows, and reads out, of a change to a secret is the same for every value that is not
-- empty.
pub describe_change-masked :
    (kind : ConfigOpKind) (path : List String) (v w : String)
    → is_masked_path path ≡ true
    → (v == "") ≡ false
    → (w == "") ≡ false
    → describe_change (record { op = kind; path = path; value = some v })
      ≡ describe_change (record { op = kind; path = path; value = some w })
unfolding describe_change
describe_change-masked kind path v w m h k =
    rw (described_value-masked path v m h, described_value-masked path w m k) refl
