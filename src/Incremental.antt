-- ===== src/Incremental.antt =====
-- src/incremental, src/monorepo and src/git/changes.ts: which services a scan has to look at.
pub mod Affected
pub mod Git
pub mod Plan
