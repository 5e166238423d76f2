-- ===== src/Store/Runs.antt =====
-- internal/repository/postgres/migration.go: plans, runs and their steps. A statement that updates
-- no row is an error where the code counts the rows.
pub mod Plans
pub mod Schedule
pub mod Records
pub mod Cancel
pub mod Cutover
pub mod Reconcile
pub mod Fencing
pub mod Lifecycle
pub mod Numbers
