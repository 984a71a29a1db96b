-- ===== src/Adapters/StreamingPro.antt =====
-- adapters/streaming_pro/: the reading of the venue's orders, and the loop that repairs the store by
-- it.
pub mod Mapping
pub mod Payloads
pub mod Adapter
pub mod Planning
pub mod Loop
