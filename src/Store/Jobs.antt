-- ===== src/Store/Jobs.antt =====
-- internal/repository/postgres/jobs.go: the queue of jobs, one for the step that a run is at.
-- An operation is one transaction: it returns the database that it commits, or the error with which
-- it rolls back.
pub mod Queue
pub mod Claim
pub mod Exclusive
pub mod Complete
pub mod Fail
