-- ===== src/Engine.antt =====
-- src/core/engine.ts: running the scanners, and the report of a scan.
pub mod Classify
pub mod RunOne
pub mod ScanRequest
pub mod RunScan
