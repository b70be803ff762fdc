-- ===== src/Configuration.antt =====
-- src/config/load.ts: reading, merging and validating the configuration file.
pub mod Outcome
pub mod Reading
pub mod Consumers
pub mod Sections
pub mod Scanning
pub mod Services
pub mod Merge
pub mod Environment
pub mod Load
