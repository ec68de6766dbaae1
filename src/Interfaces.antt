-- ===== src/Interfaces.antt =====
-- Network interfaces: lib/interfaceTypes.ts, interfaceParse.ts and interfaceConfigForm.ts.
pub mod Types
pub mod Parse
pub mod Form
