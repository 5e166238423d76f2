-- ===== src/Worker.antt =====
-- internal/worker/runner.go: the runner of migration jobs.
pub mod Store
pub mod Runner
