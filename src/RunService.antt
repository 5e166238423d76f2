-- ===== src/RunService.antt =====
-- internal/migration/run_service.go: `RunService` over the PostgreSQL repositories.
pub mod Report
pub mod Pages
pub mod Commands
