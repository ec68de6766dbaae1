-- ===== src/Container.antt =====
-- Containers and their images: lib/containerTypes.ts, containerParse.ts, containerForm.ts,
-- containerImageMatch.ts, store/containerImageUpdateChecks.ts and
-- components/container/ContainerImageUpdateCheck.tsx.
pub mod Types
pub mod Paths
pub mod Parse
pub mod Form
pub mod Images
pub mod UpdateCheck
