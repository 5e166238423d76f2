-- ===== src/Assessment.antt =====
-- internal/assessment: the assessment of an application against the target cluster.
pub mod Model
pub mod Engine
pub mod Rules
pub mod Dependencies
pub mod Extended
pub mod Images
pub mod Service
pub mod Score
pub mod Blockers
