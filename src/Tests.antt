-- ===== src/Tests.antt =====
-- The theorems at concrete inputs, and runs of the code on small ones.
mod Forms
mod PolicyForms
mod DhcpForms
mod Queue
mod Sessions
mod Order
mod Addresses
mod Reorder
mod Commits
mod Lookups
mod Vrrp
mod Warnings
mod Interfaces
mod Containers
use vyos_client.Base.{String, true, List, [], ◌∷◌, ◌++◌, ◌≡◌, refl, All}
use vyos_client.Json.{undefined, empty_obj, child, entry}
use vyos_client.Json.Paths.{get_path, is_nonempty}
use vyos_client.Config.Router.{Router}
use vyos_client.Config.Router.Fake.Laws.{fake_router}

-- The fake router with nothing configured.
unfoldable pub empty_router : fake_router.State
unfolding fake_router
empty_router = empty_obj

-- Below any node the fake router holds one value at each leaf.
pub fake_single :
    (base : List String)
    → is_nonempty base ≡ true
    → (ps : List (List String)) → All (λ p. fake_router.single_valued (base ++ p) ≡ true) ps
unfolding fake_router
fake_single [] h ps = cc
fake_single (k ∷ base) h [] = tt
fake_single (k ∷ base) h (p ∷ ps) = (refl, fake_single (k ∷ base) h ps)

missing-get_path : (p : List String) → get_path undefined p ≡ undefined
unfolding child
missing-get_path [] = refl
missing-get_path (k ∷ p) = missing-get_path p

-- Nothing is configured there.
pub empty-get_path :
    (p : List String)
    → is_nonempty p ≡ true
    → get_path (fake_router.tree empty_router) p ≡ undefined
unfolding fake_router empty_router child entry
empty-get_path [] h = cc
empty-get_path (k ∷ p) h = missing-get_path p
