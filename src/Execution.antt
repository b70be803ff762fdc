-- ===== src/Execution.antt =====
-- src/execution: running scanners in managed containers.
pub mod RunnerLease
pub mod RunnerServer
