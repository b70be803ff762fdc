-- ===== src/Policy.antt =====
-- src/policy: waivers, policy documents, their resolution and evaluation, OPA and the release gate.
pub mod Waivers
pub mod WaiverFile
pub mod Resolve
pub mod Evaluate
pub mod Documents
pub mod Opa
pub mod Release
