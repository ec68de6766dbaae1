-- ===== src/Container/UpdateCheck/Sound.antt =====
-- What an update check shows and pulls is an answer for the container's image:
-- components/container/ContainerImageUpdateCheck.tsx.
use vyos_client.Base.{
  ℕ, String, Bool, true, false, not, ◌&&◌, ◌||◌, ◌≡◌, ◌≢◌, refl, sym, ap, subst, ◌∙◌, Option, none,
  some, List, [], ◌∷◌, Bool-cases, inl, inr, eq_iff, arith, ◌==◌, if◌then◌else◌,
}
use vyos_client.Store.Pending.{PendingChange}
use vyos_client.Container.UpdateCheck.{
  ImageUpdate, CachedContainerImageUpdateCheck, Checks, Panel, mount, check, check_answered,
  check_failed, upgrade, pulled, pull_failed, can_check, can_upgrade, check_button, upgrade_button,
  upgrade_info, offered, upgrade_already_queued, cached_for_image, cached_result, set_check,
}
use vyos_client.Container.UpdateCheck.Steps.{Step, IsSoundChecks, Reachable}
use vyos_client.Dhcp.Leases.{set_entry, get_entry}

module _ (Answers : String → ImageUpdate → Type 0) where
  record IsSound (p : Panel) : Type 0 where
    remembered : IsSoundChecks Answers p.checks
    asks : (image : String) → p.check_flight ≡ some image → (p.checking ≡ true) × (image ≡ p.image)
    shows : (r : ImageUpdate) → p.result ≡ some r → Answers p.image r
    waits : p.checking ≡ true → p.result ≡ none
    pulls :
        (ref : String)
        → p.pull_flight ≡ some ref
        → (p.pulling ≡ true)
          × ((r : ImageUpdate) × (upgrade_info p ≡ some r) × (r.new_image_ref ≡ ref))

  IsSoundChecks-set_entry :
      (name : String) (c : CachedContainerImageUpdateCheck) (checks : Checks)
      → Answers c.image c.result
      → IsSoundChecks Answers checks
      → IsSoundChecks Answers (set_entry name c checks)
  IsSoundChecks-set_entry name c [] a h = (a, tt)
  IsSoundChecks-set_entry name c ((k, b) ∷ checks) a (h, hs) = elim (Bool-cases (k == name)) [
    | inl same ↦ rw same (a, hs)
    | inr other ↦ rw other (h, IsSoundChecks-set_entry name c checks a hs)
  ]

  get_entry-Sound :
      (name : String) (checks : Checks) (c : CachedContainerImageUpdateCheck)
      → IsSoundChecks Answers checks
      → get_entry name checks ≡ some c
      → Answers c.image c.result
  get_entry-Sound name [] c h e = cc
  get_entry-Sound name ((k, b) ∷ checks) c (h, hs) e = elim (Bool-cases (k == name)) [
    | inl same ↦
        let found : some b ≡ some c =
          subst (λ t. (if t then some b else get_entry name checks) ≡ some c) same e in
        let one : b ≡ c = cc in subst (λ x. Answers x.image x.result) one h
    | inr other ↦
        get_entry-Sound name checks c hs
          (subst (λ t. (if t then some b else get_entry name checks) ≡ some c) other e)
  ]

  -- A remembered result is shown only for the image that it is remembered with.
  cached-Sound :
      (image : String) (o : Option CachedContainerImageUpdateCheck) (r : ImageUpdate)
      → ((c : CachedContainerImageUpdateCheck) → o ≡ some c → Answers c.image c.result)
      → cached_result (cached_for_image image o) ≡ some r
      → Answers image r
  cached-Sound image none r sound e = cc
  cached-Sound image (some c) r sound e = elim (Bool-cases (c.image == image)) [
    | inl same ↦
        let found : cached_result (some c) ≡ some r =
          subst (λ t. cached_result (if t then some c else none) ≡ some r) same e in
        let one : c.result ≡ r = cc in
        subst (λ i. Answers i r) ((eq_iff c.image image).0 same)
          (subst (λ x. Answers c.image x) one (sound c refl))
    | inr other ↦
        let found : cached_result none ≡ some r =
          subst (λ t. cached_result (if t then some c else none) ≡ some r) other e in
        cc
  ]

  mount-IsSound :
      (image container_name : String) (checks : Checks) (changes : List PendingChange)
      → IsSoundChecks Answers checks
      → IsSound (mount image container_name checks changes)
  unfolding mount
  mount-IsSound image container_name checks changes h = record {
    remembered = h;
    asks = λ i e. cc;
    shows = λ r e.
        cached-Sound image (get_entry container_name checks) r
          (λ c k. get_entry-Sound container_name checks c h k) e;
    waits = λ e. cc;
    pulls = λ ref e. cc;
  }

  -- Nothing is offered where no result is there.
  offered-none :
      (queued : Bool) (o : Option ImageUpdate) (r : ImageUpdate)
      → o ≡ none
      → offered queued o ≢ some r
  offered-none queued none r h = λ e. cc
  offered-none queued (some s) r h = λ e. cc

  -- While an image is pulled, no check can be started.
  can_check-pulling :
      (p : Panel) (r : ImageUpdate)
      → p.pulling ≡ true
      → upgrade_info p ≡ some r
      → can_check p ≢ true
  unfolding can_check
  can_check-pulling p r pulling offer h =
      let busy : not (p.checking || p.pulling) ≡ true =
        subst (λ o. check_button o p ≡ true) offer h in
      ground arith

  check-IsSound : (p : Panel) → can_check p ≡ true → IsSound p → IsSound (check p)
  unfolding check can_check
  check-IsSound p h s = record {
    remembered = s.remembered;
    asks = λ i e. (refl, cc);
    shows = λ r e. cc;
    waits = λ e. refl;
    pulls = λ ref e.
        let (pulling, (r, offer, _)) = s.pulls ref e in
        absurd (can_check-pulling p r pulling offer h);
  }

  check_answered-IsSound :
      (p : Panel) (image : String) (r : ImageUpdate) (now : ℕ)
      → p.check_flight ≡ some image
      → Answers image r
      → IsSound p
      → IsSound (check_answered image r now p)
  unfolding check_answered set_check
  check_answered-IsSound p image r now flight a s =
      let (checking, same) = s.asks image flight in
      record {
        remembered = IsSoundChecks-set_entry p.container_name _ p.checks a s.remembered;
        asks = λ i e. cc;
        shows = λ r' e.
            let one : r ≡ r' = cc in
            subst (λ x. Answers p.image x) one (subst (λ i. Answers i r) same a);
        waits = λ e. cc;
        pulls = λ ref e.
            let (_, (r', offer, _)) = s.pulls ref e in
            absurd (offered-none p.queued p.result r' (s.waits checking) offer);
      }

  check_failed-IsSound :
      (p : Panel) (image : String) (message : Option String)
      → p.check_flight ≡ some image
      → IsSound p
      → IsSound (check_failed message p)
  unfolding check_failed
  check_failed-IsSound p image message flight s = record {
    remembered = s.remembered;
    asks = λ i e. cc;
    shows = s.shows;
    waits = λ e. cc;
    pulls = s.pulls;
  }

  upgrade_button-offer :
      (o : Option ImageUpdate) (ref : String) (disabled : Bool)
      → upgrade_button o ref disabled ≡ true
      → (r : ImageUpdate) × (o ≡ some r) × (r.new_image_ref ≡ ref)
  upgrade_button-offer none ref disabled h = cc
  upgrade_button-offer (some r) ref disabled h =
      (r, refl, (eq_iff r.new_image_ref ref).0 (ground arith))

  can_upgrade-offer :
      (p : Panel) (ref : String)
      → can_upgrade ref p ≡ true
      → (r : ImageUpdate) × (upgrade_info p ≡ some r) × (r.new_image_ref ≡ ref)
  unfolding can_upgrade
  can_upgrade-offer p ref h = upgrade_button-offer (upgrade_info p) ref _ h

  upgrade-IsSound :
      (p : Panel) (ref : String) → can_upgrade ref p ≡ true → IsSound p → IsSound (upgrade ref p)
  unfolding upgrade
  upgrade-IsSound p ref h s = elim (Bool-cases (upgrade_already_queued p)) [
    | inl again ↦ rw again s
    | inr fresh ↦ rw fresh (record {
      remembered = s.remembered;
      asks = s.asks;
      shows = s.shows;
      waits = s.waits;
      pulls = λ ref' e. (
        refl,
        (let (r, offer, same) = can_upgrade-offer p ref h in
            let one : ref ≡ ref' = cc in (r, offer, same ∙ one)),
      );
    })
  ]

  pulled-IsSound : (p : Panel) (id ref : String) → IsSound p → IsSound (pulled id ref p)
  unfolding pulled
  pulled-IsSound p id ref s = record {
    remembered = s.remembered;
    asks = s.asks;
    shows = s.shows;
    waits = s.waits;
    pulls = λ ref' e. cc;
  }

  pull_failed-IsSound :
      (p : Panel) (message : Option String) → IsSound p → IsSound (pull_failed message p)
  unfolding pull_failed
  pull_failed-IsSound p message s = record {
    remembered = s.remembered;
    asks = s.asks;
    shows = s.shows;
    waits = s.waits;
    pulls = λ ref' e. cc;
  }

  Step-IsSound : (p q : Panel) → Step Answers p q → IsSound p → IsSound q
  Step-IsSound _ _ (Step.checks_clicked p h) s = check-IsSound p h s
  Step-IsSound _ _ (Step.check_answers p image r now flight a) s =
      check_answered-IsSound p image r now flight a s
  Step-IsSound _ _ (Step.check_fails p image message flight) s =
      check_failed-IsSound p image message flight s
  Step-IsSound _ _ (Step.upgrade_clicked p ref h) s = upgrade-IsSound p ref h s
  Step-IsSound _ _ (Step.pull_answers p ref id flight) s = pulled-IsSound p id ref s
  Step-IsSound _ _ (Step.pull_fails p ref message flight) s = pull_failed-IsSound p message s
  Step-IsSound _ _ (Step.queue_edited p changes) s = record {
    remembered = s.remembered;
    asks = s.asks;
    shows = s.shows;
    waits = s.waits;
    pulls = s.pulls;
  }

  Reachable-IsSound : (p : Panel) → Reachable Answers p → IsSound p
  Reachable-IsSound _ (Reachable.mounted image name checks changes h) =
      mount-IsSound image name checks changes h
  Reachable-IsSound _ (Reachable.stepped p q h step) = Step-IsSound p q step (Reachable-IsSound p h)

  offered-some :
      (queued : Bool) (o : Option ImageUpdate) (r : ImageUpdate)
      → offered queued o ≡ some r
      → (o ≡ some r)
        × (r.enabled ≡ true)
        × (r.recognized ≡ true)
        × (r.update_available ≡ true)
        × (queued ≡ false)
  offered-some queued none r h = cc
  offered-some queued (some s) r h =
      elim (Bool-cases (s.enabled && s.recognized && s.update_available && not queued)) [
        | inl there ↦
            let found : some s ≡ some r =
              subst (λ b. (if b then some s else none) ≡ some r) there h in
            let same : s ≡ r = cc in
            (
              found,
              sym (ap (λ (x : ImageUpdate). x.enabled) same) ∙ ground arith,
              sym (ap (λ (x : ImageUpdate). x.recognized) same) ∙ ground arith,
              sym (ap (λ (x : ImageUpdate). x.update_available) same) ∙ ground arith,
              ground arith,
            )
        | inr off ↦
            let found : none ≡ some r = subst (λ b. (if b then some s else none) ≡ some r) off h in
            cc
      ]

  -- In every state that is reached while the container's image stays as it is, the result that is
  -- shown is an answer of the backend for that image, if every result remembered before was one for
  -- the image that it is remembered with.
  pub Reachable-IsCurrent :
      (p : Panel) (r : ImageUpdate) → Reachable Answers p → p.result ≡ some r → Answers p.image r
  Reachable-IsCurrent p r h e = (Reachable-IsSound p h).shows r e

  -- In such a state, the image being pulled is the newer image of an answer for the container's
  -- image, from checks that are enabled and knew its tag, and no check runs meanwhile.
  pub Reachable-IsOffered :
      (p : Panel) (ref : String)
      → Reachable Answers p
      → p.pull_flight ≡ some ref
      → (r : ImageUpdate) × Answers p.image r
        × (r.new_image_ref ≡ ref)
        × (r.enabled ≡ true)
        × (r.recognized ≡ true)
        × (r.update_available ≡ true)
        × (p.checking ≡ false)
  Reachable-IsOffered p ref h e =
      let s = Reachable-IsSound p h in
      let (_, (r, offer, same)) = s.pulls ref e in
      let (shown, enabled, recognized, available, _) = offered-some p.queued p.result r offer in
      let idle : p.checking ≡ false = elim (Bool-cases p.checking) [
        | inl checking ↦ absurd (offered-none p.queued p.result r (s.waits checking) offer)
        | inr still ↦ still
      ] in
      (r, s.shows r shown, same, enabled, recognized, available, idle)
