-- ===== src/Postgres.antt =====
-- internal/postgres: the store. Each SQL statement is a function on the tables, with the
-- constraints of internal/migrations/sql/0001_init.sql, and each method runs its statements.
pub mod Laws
pub mod Frames
pub mod Keeps
pub mod Services
pub mod Readiness
pub mod Candidates
pub mod Audit
pub mod Jobs
