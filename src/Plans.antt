-- ===== src/Plans.antt =====
-- internal/migration/service.go: the plans of migrations and their preflight checks.
pub mod Checks
pub mod Strategy
pub mod Service
pub mod Gate
pub mod Ready
pub mod Decision
pub mod Created
pub mod BlockVolumes
