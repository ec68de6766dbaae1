-- ===== src/Ha.antt =====
-- High availability: lib/haTypes.ts, haParse.ts, haVrrpForm.ts and haConntrackSyncForm.ts.
pub mod Types
pub mod Parse
pub mod VrrpForm
pub mod ConntrackForm
