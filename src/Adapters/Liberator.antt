-- ===== src/Adapters/Liberator.antt =====
-- adapters/liberator/: the reading of the venue's orders, and the loop that repairs the store by it.
pub mod Mapping
pub mod Payloads
pub mod Models
pub mod Adapter
pub mod Planning
pub mod Views
pub mod Loop
