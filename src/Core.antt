-- ===== src/Core.antt =====
-- src/core: the shared data types, the configuration and its defaults.
pub mod Enums
pub mod Findings
pub mod PolicyTypes
pub mod Json
pub mod Platform
pub mod Config
pub mod Settings
pub mod Defaults
