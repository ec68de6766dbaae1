-- ===== src/Config.antt =====
-- Configuration operations (lib/vyosApi.ts), the router that runs them, and the diffs by which the
-- forms produce them.
pub mod Op
pub mod MultiValue
pub mod Router
pub mod Diff
