-- ===== src/Tests.antt =====
-- Concrete runs of the models, on which the theorems of the other modules are applied.
pub mod Examples
pub mod Routing
pub mod Storing
pub mod Reconciling
pub mod Bridging
pub mod Limiting
pub mod Publishing
pub mod Pricing
pub mod Wiring
pub mod Booking
pub mod Placing
pub mod Guarding
