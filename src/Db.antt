-- ===== src/Db.antt =====
-- db/: the durable order store. PostgreSQL itself is outside this library: what the source relies
-- on, that a statement acts at once and as a whole, is how the tables below are written.
pub mod Models
pub mod Repositories
