-- ===== src/Core/Router.antt =====
-- core/router.py, in parts.
pub mod Parts
pub mod Settle
pub mod Submit
pub mod Cancel
pub mod Amend
pub mod Operations
pub mod Halted
