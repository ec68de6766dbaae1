-- ===== src/Container/UpdateCheck/Steps.antt =====
-- What can happen to a mounted update check, and what holds in every order of it:
-- components/container/ContainerImageUpdateCheck.tsx.
use vyos_client.Base.{ℕ, String, true, ◌≡◌, Option, some, List, All}
use vyos_client.Store.Pending.{PendingChange}
use vyos_client.Container.UpdateCheck.{
  ImageUpdate, Checks, Panel, mount, check, check_answered, check_failed, upgrade, pulled,
  pull_failed, can_check, can_upgrade,
}

-- `Answers image r`: the backend answers the check of an image by `r`.
module _ (Answers : String → ImageUpdate → Type 0) where
  -- A click on a button that can be clicked, an answer to a request that is in flight, or an edit of
  -- the queue elsewhere.
  pub data Step : Panel → Panel → Type 0 where
    checks_clicked : (p : Panel) → can_check p ≡ true → Step p (check p)
    check_answers :
        (p : Panel) (image : String) (r : ImageUpdate) (now : ℕ)
        → p.check_flight ≡ some image
        → Answers image r
        → Step p (check_answered image r now p)
    check_fails :
        (p : Panel) (image : String) (message : Option String)
        → p.check_flight ≡ some image
        → Step p (check_failed message p)
    upgrade_clicked :
        (p : Panel) (new_image_ref : String)
        → can_upgrade new_image_ref p ≡ true
        → Step p (upgrade new_image_ref p)
    pull_answers :
        (p : Panel) (new_image_ref id : String)
        → p.pull_flight ≡ some new_image_ref
        → Step p (pulled id new_image_ref p)
    pull_fails :
        (p : Panel) (new_image_ref : String) (message : Option String)
        → p.pull_flight ≡ some new_image_ref
        → Step p (pull_failed message p)
    queue_edited :
        (p : Panel) (changes : List PendingChange) → Step p (record p { changes = changes })

  -- Every remembered result is an answer for the image that it is remembered with.
  abbrev pub IsSoundChecks : Checks → Type 0
  IsSoundChecks checks = All (λ e. Answers e.1.image e.1.result) checks

  -- From a mount, by steps that leave the container's image as it is.
  pub data Reachable : Panel → Type 0 where
    mounted :
        (image container_name : String) (checks : Checks) (changes : List PendingChange)
        → IsSoundChecks checks
        → Reachable (mount image container_name checks changes)
    stepped : (p q : Panel) → Reachable p → Step p q → Reachable q
