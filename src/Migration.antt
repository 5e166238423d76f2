-- ===== src/Migration.antt =====
-- The domain model of migrations (internal/domain/migration/model.go).
pub mod Model
pub mod Texts
pub mod Transitions
pub mod Schedule
pub mod Plan
