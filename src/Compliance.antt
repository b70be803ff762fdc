-- ===== src/Compliance.antt =====
-- src/compliance: the tokens of the service and the scope that its records are kept under.
pub mod Scope
pub mod Auth
pub mod CraReporting
