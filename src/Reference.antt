-- ===== src/Reference.antt =====
-- reference/: the figures that the studies compute with.
pub mod FeeSchedule
