-- ===== src/Api.antt =====
-- api/: who may call what, and the statuses of refusals.
pub mod Guards
pub mod Statuses
