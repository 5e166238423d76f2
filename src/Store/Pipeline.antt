-- ===== src/Store/Pipeline.antt =====
-- A run as it moves through its steps, by the job repository and the migration repository.
pub mod Position
pub mod Claiming
