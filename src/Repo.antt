-- ===== src/Repo.antt =====
-- `PgRepo`, the Postgres implementation of the trait `Repo`: crates/core/src/repo.rs.
pub mod Error
pub mod Db
pub mod Truncate
pub mod Ordered
pub mod Query
pub mod Keys
pub mod Rows
pub mod Locking
pub mod Scheduling
pub mod Dispatching
pub mod Sweep
pub mod Stats
pub mod Admin
pub mod Retention
