-- ===== src/Container/UpdateCheck.antt =====
-- The check for a newer image of a container: store/containerImageUpdateChecks.ts and
-- components/container/ContainerImageUpdateCheck.tsx. `Date.now()` and `crypto.randomUUID()` are
-- arguments, and the browser's storage keeps the store as it is.
pub mod Steps
pub mod Sound
use vyos_client.Base.{
  ℕ, String, Bool, true, false, not, ◌&&◌, ◌||◌, Option, none, some, List, [], ◌∷◌, ◌==◌,
  if◌then◌else◌, select, or_else,
}
use Prim.Native.String.{◌++◌}
use vyos_client.Base.Text.{join}
use vyos_client.Config.Op.{set_value}
use vyos_client.Store.Pending.{PendingChange, NewChange, add, has_pending_set}
use vyos_client.Dhcp.Leases.{set_entry, get_entry}
use vyos_client.Container.Paths.{container_name_path}

-- `ContainerImageUpdateCheck` of lib/vyosApi.ts
pub record ImageUpdate : Type 0 where
  pub enabled : Bool
  pub current_tag : String
  pub recognized : Bool
  pub latest_tag : String
  pub update_available : Bool
  pub new_image_ref : String
  pub major_update : Option Bool

pub record CachedContainerImageUpdateCheck : Type 0 where
  pub result : ImageUpdate
  pub image : String
  pub checked_at : ℕ

abbrev pub Checks : Type 0
Checks = List (String × CachedContainerImageUpdateCheck)

unfoldable pub set_check : String → String → ImageUpdate → ℕ → Checks → Checks
set_check container_name image result now checks =
    set_entry container_name (record { result = result; image = image; checked_at = now }) checks

unfoldable pub clear_check : String → Checks → Checks
clear_check container_name checks = select (λ e. not (e.0 == container_name)) checks

-- One mounted component: its properties, its state, and the two stores. A request in flight holds
-- what its handler's closure does: a check the image, a pull the image to pull.
pub record Panel : Type 0 where
  pub image : String
  pub container_name : String
  pub checking : Bool
  pub result : Option ImageUpdate
  pub checked_at : Option ℕ
  pub error : Option String
  pub pulling : Bool
  pub queued : Bool
  pub check_flight : Option String
  pub pull_flight : Option String
  pub checks : Checks
  pub changes : List PendingChange

-- `cached?.image === image ? cached : undefined`
abbrev pub cached_for_image :
    String → Option CachedContainerImageUpdateCheck → Option CachedContainerImageUpdateCheck
cached_for_image image none = none
cached_for_image image (some cached) = if cached.image == image then some cached else none

abbrev pub cached_result : Option CachedContainerImageUpdateCheck → Option ImageUpdate
cached_result none = none
cached_result (some cached) = some cached.result

abbrev pub cached_time : Option CachedContainerImageUpdateCheck → Option ℕ
cached_time none = none
cached_time (some cached) = some cached.checked_at

unfoldable pub mount : String → String → Checks → List PendingChange → Panel
mount image container_name checks changes =
    let cached = cached_for_image image (get_entry container_name checks) in
    record {
      image = image;
      container_name = container_name;
      checking = false;
      result = cached_result cached;
      checked_at = cached_time cached;
      error = none;
      pulling = false;
      queued = false;
      check_flight = none;
      pull_flight = none;
      checks = checks;
      changes = changes;
    }

abbrev pub image_path : Panel → List String
unfolding container_name_path
image_path p = container_name_path p.container_name ("image" ∷ [])

abbrev pub upgrade_already_queued : Panel → Bool
unfolding has_pending_set
upgrade_already_queued p = has_pending_set p.changes (image_path p)

abbrev pub offered : Bool → Option ImageUpdate → Option ImageUpdate
offered queued none = none
offered queued (some r) =
    if r.enabled && r.recognized && r.update_available && not queued then some r else none

abbrev pub upgrade_info : Panel → Option ImageUpdate
upgrade_info p = offered p.queued p.result

-- The two halves of `check`: up to its `await`, and what it does with the answer.
unfoldable pub check : Panel → Panel
check p = record p {
  checking = true;
  error = none;
  result = none;
  queued = false;
  check_flight = some p.image;
}

unfoldable pub check_answered : String → ImageUpdate → ℕ → Panel → Panel
unfolding set_check
check_answered image check_result now p = record p {
  result = some check_result;
  checked_at = some now;
  checks = set_check p.container_name image check_result now p.checks;
  checking = false;
  check_flight = none;
}

-- `err instanceof Error ? err.message : fallback`
abbrev pub error_text : Option String → String → String
error_text message fallback = or_else message fallback

unfoldable pub check_failed : Option String → Panel → Panel
check_failed message p = record p {
  error = some (error_text message "Failed to check for updates.");
  checking = false;
  check_flight = none;
}

unfoldable pub upgrade : String → Panel → Panel
upgrade new_image_ref p =
    if upgrade_already_queued p
    then p
    else record p { pulling = true; error = none; pull_flight = some new_image_ref }

abbrev pub image_change : Panel → String → NewChange
unfolding join
image_change p new_image_ref = record {
  op = set_value (image_path p) new_image_ref;
  label = "set " ++ join " " (image_path p) ++ " '" ++ new_image_ref ++ "'";
}

unfoldable pub pulled : String → String → Panel → Panel
unfolding add
pulled id new_image_ref p = record p {
  changes = add id (image_change p new_image_ref) p.changes;
  queued = true;
  pulling = false;
  pull_flight = none;
}

unfoldable pub pull_failed : Option String → Panel → Panel
pull_failed message p = record p {
  error = some (error_text message "Failed to pull the new image.");
  pulling = false;
  pull_flight = none;
}

-- The button "Check for update" or "Re-check" is shown and not disabled.
abbrev pub check_button : Option ImageUpdate → Panel → Bool
check_button (some info) p = not (p.checking || p.pulling)
check_button none p = not p.queued && not p.checking

unfoldable pub can_check : Panel → Bool
can_check p = check_button (upgrade_info p) p

-- The button "Upgrade" to an image is shown and not disabled.
abbrev pub upgrade_button : Option ImageUpdate → String → Bool → Bool
upgrade_button (some info) new_image_ref disabled =
    info.new_image_ref == new_image_ref && not disabled
upgrade_button none new_image_ref disabled = false

unfoldable pub can_upgrade : String → Panel → Bool
can_upgrade new_image_ref p =
    upgrade_button (upgrade_info p) new_image_ref (p.pulling || upgrade_already_queued p)
