-- ===== src/Store.antt =====
-- The database of the platform (internal/repository/postgres): its tables, the statements of the
-- job repository and of the migration repository, and what holds of them.
pub mod Tables
pub mod Jobs
pub mod Runs
pub mod Pipeline
