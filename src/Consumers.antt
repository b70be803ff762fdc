-- ===== src/Consumers.antt =====
-- src/consumers: the downstream consumers of findings.
pub mod Registry
pub mod Envelope
pub mod Adapters
pub mod Messages
pub mod Delivery
pub mod Outbox
pub mod Enqueue
pub mod Selection
