-- ===== src/Enterprise.antt =====
-- src/enterprise: what an installation keeps to account for its runs.
pub mod Audit
