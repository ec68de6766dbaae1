-- ===== src/Policy.antt =====
-- Routing policy: lib/policyTypes.ts, policyParse.ts, and the forms of prefix lists, of as-path and
-- community lists, of route maps and of local routes.
pub mod Types
pub mod Parse
pub mod Paths
pub mod PrefixListForm
pub mod PolicyListForm
pub mod RouteMapForm
pub mod LocalRouteForm
