-- ===== src/Adapters.antt =====
-- adapters/: the sessions with the venues, and the deterministic one that stands in for them.
pub mod Base
pub mod Session
pub mod RateLimit
pub mod Sim
pub mod SimPricing
pub mod Reconcile
pub mod Views
pub mod Liberator
pub mod StreamingPro
