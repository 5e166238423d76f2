-- ===== src/Execution.antt =====
-- The handlers of the steps of a Kubernetes migration (internal/migration/velero_executor.go).
pub mod Clients
pub mod Progress
pub mod State
pub mod Context
pub mod Quiesce
pub mod Transfers
pub mod Backup
pub mod Restore
pub mod Checks
pub mod Handle
pub mod Keeps
pub mod BackupKept
pub mod RestoreKept
pub mod Kept
pub mod Recorded
pub mod Scaling
pub mod Stopped
pub mod Restored
pub mod Ends
pub mod Cleanup
pub mod Verdicts
pub mod Incomplete
pub mod Bytes
pub mod StoredRows
pub mod Unique
pub mod Saved
pub mod Target
