-- ===== src/Events.antt =====
-- events/: the in-process fan-out of order updates.
pub mod Models
pub mod Subscription
pub mod Hub
