-- ===== src/Dependencies.antt =====
-- src/dependencies: the order of versions, simple version ranges and the difference of inventories.
pub mod Versions
pub mod Diff
