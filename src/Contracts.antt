-- ===== src/Contracts.antt =====
-- contracts/: the order language that every caller speaks.
pub mod Enums
pub mod Errors
pub mod Orders
pub mod Capabilities
