-- ===== src/Adapters/Reconcile.antt =====
-- adapters/liberator/reconciler.py and adapters/streaming_pro/reconciler.py: what the two share.
pub mod Matching
pub mod Planning
pub mod Repair
pub mod Pass
