-- ===== src/Lib.antt =====
-- A verification library of SKS Migration Center, which moves applications between Kubernetes
-- clusters and Docker Compose hosts.
--
-- The program. An administrator plans a migration and starts a run of the plan
-- (internal/migration/run_service.go). The run is a row of a PostgreSQL database, with a list of
-- steps and a queue that has a job for the step whose turn it is
-- (internal/repository/postgres/migration.go and jobs.go). Workers (internal/worker/runner.go) claim
-- a job for the time of a lease, renew the lease while the handler of the step runs, and complete
-- the job, hand it back or fail it. Each of these moves the run through the state machine of
-- internal/domain/migration/model.go: forward to the cutover gate, where it waits for an
-- administrator, or into a rollback. Before a plan may start, its application is assessed against the
-- target cluster (internal/assessment), and the preflight checks decide whether the plan is ready
-- (internal/migration/service.go). The administrator logs in (internal/auth/service.go), and the
-- credentials of clusters and hosts lie encrypted in a vault (internal/credential/vault.go).
--
-- The files.
--   Migration: the state machine (Migration.Transitions: `StatusForStep`, `RequiresRollback`,
--     `IsTerminal`, `ValidateTransition`), the records and the texts of the statuses
--     (Migration.Model, Migration.Texts), the steps of a run (Migration.Schedule: `scheduledSteps`)
--     and the check of a plan (Migration.Plan: `Plan.Validate`).
--   Store: the tables (Store.Tables), the job queue (Store.Jobs: `Enqueue`, `Claim`, `Heartbeat`,
--     `Retry`, `Complete`, `Fail`) and the repository of plans and runs (Store.Runs: plans in Plans,
--     `ScheduleRun` in Schedule, `CancelRun` and `RestoreSource` in Cancel, `ConfirmCutover` in
--     Cutover, `ReconcileValidationSuccess` of migration_evidence.go in Reconcile, the rest in Records).
--   RunService: the operations that the API calls (Commands) and the report of a run (Report).
--   Worker: the interface `JobStore`, its implementation by the job repository, and the runner.
--   Environment, Application: the records of environments with their discovered capabilities and of
--     applications with their inventory (model.go in internal/domain/environment and application).
--   Assessment: the engine and its rules (Engine, Rules, Dependencies, Extended, Images) and the
--     service (internal/assessment). Catalog: the tables of environments, applications, profiles
--     and assessments (internal/repository/postgres).
--   Plans: the plan service (Plans.Service: `Create`, `Preflight`) with the checks of a preflight
--     (Checks, Strategy). Gate says what they demand.
--   Mapping: the check of a mapping profile (Mapping.Model, Registries, Nfs and Profile:
--     `NormalizeAndValidate` of internal/domain/mapping/model.go) and the use of its registry
--     mappings (Mapping.Rewrite: `rewritePrefix` of internal/transform/rules.go).
--   Security, Credential: the envelope encryption (internal/security/envelope.go), and the vault
--     over the table of credentials (Credential.Records, Credential.Vault).
--   Auth: the hashes of passwords (Password: internal/security/password.go), the tables of
--     administrators and sessions (Accounts: internal/repository/postgres/identity.go), and the
--     service.
--   Config: the configuration from the environment (internal/config/config.go).
--   Offline: the check of the image lock (internal/offline/lock.go). `Syntax` has the functions of
--     path/filepath.
--   Execution: the handlers of the steps of a Kubernetes migration
--     (internal/migration/velero_executor.go). Clients has the interfaces of the Velero and Kubernetes
--     clients, Progress the tables of transfers and replica snapshots
--     (internal/repository/postgres/migration_progress.go), State the executor with its state, Context
--     `resolve` and the names of backups, Quiesce `quiesce` and `rollback`, Transfers
--     `recordTransfers`, Backup `backup` and `verifyTransfer`, Restore `prepareTransform`,
--     `waitForSyncedBackup` and `restore`, Checks `preflight` and `validateTarget` (with
--     validation_wait.go), and Handle the handler. Keeps and Ends reason about the handlers: what every
--     step keeps (BackupKept, RestoreKept and Kept go through the steps), and what holds when one has
--     succeeded.
--   The modules Graph, Pipeline, Exclusive, Fencing, Lifecycle, Laws, Numbers,
--     Unambiguous, Sorted, Pages, RoundTrip, Contents, Score, Blockers, Ready,
--     Decision, Created, BlockVolumes, Hashes, Sessions, Outcomes, Changed, Started, Locked,
--     Recorded, Scaling, Stopped, Restored, Saved, Target, Cleanup, Incomplete, Verdicts, StoredRows,
--     Unique and
--     Bytes have the proofs about the modules beside them.
--   Base: lists, tables and results, shared by all. Examples: the theorems at concrete rows.
--
-- The state. A table is the list of its rows, and a statement updates the rows that its WHERE
-- clause selects. A transaction is one step: an operation returns the new database, or the error
-- that rolls it back. The constraints (primary keys, unique keys, and the checks on the kind of a
-- saved workload and on negative bytes) that an operation can violate are tests of the operation.
-- A UUID is a number with `uuid.Nil` as 0, and a time is a number of
-- milliseconds, with 0 for the zero time. Fresh UUIDs, the program's clock and the database's clock
-- are arguments. The rows that SKIP LOCKED passes are given by the argument `locked`. The state of
-- the run service outlives its errors, since a transaction that has been committed stays committed.
-- The handler of a step runs beside the heartbeats of its lease: what happens to the state between
-- two heartbeats is a part of the tick.
--
-- Numbers. The bytes of a transfer are `int64`, written as bit patterns below 2 ^ 64 that wrap around
-- (Base.Int64). Other counts, times, numbers of rows and versions of keys are natural numbers. There are two
-- subtractions: the duration in the report, which is guarded by a comparison in the source, and the
-- score of an assessment, which only falls and stops at 0.
--
-- Loops. All loops are structural recursion over a list, except for the loop over the pages of
-- events in `Report`, which takes fuel: each page but the last has 500 events behind those of the
-- page before, so that one unit more than the number of events is enough. A loop of the executor that
-- polls a cluster recurs on the list of the waits that run off before its context is cancelled; each
-- wait says what the clusters do meanwhile, and after the last one the loop ends with the
-- cancellation.
--
-- Errors. The errors that callers tell apart are constructors of a type, the others carry their text,
-- without the values that it quotes.
--
-- Libraries. AES-GCM, base64, JSON, Argon2, SHA-256, `uuid.NewSHA1`, `sort.Slice`,
-- path/filepath and the parsers of numbers and durations are parameters, and so are the clients of Velero and Kubernetes, with the
-- state of the clusters. The records CryptoLaws, ArgonLaws, ScalingLaws and StagingLaws state what is
-- relied on of them, and the examples instantiate them. Case folding is that of ASCII.
--
-- Not modelled: lost connections to the database (but for the audit event of a login), JSON encoding, logging and metrics, the handlers of
-- the steps of a Compose migration, the wiping of kubeconfigs in memory, the numbers and the texts
-- of a cluster that an error of the executor quotes, the API, the adapters of the clusters
-- and of the object storage, and the offline bundle but for its image lock.
pub mod Application
pub mod Assessment
pub mod Auth
pub mod Base
pub mod Catalog
pub mod Config
pub mod Credential
pub mod Environment
pub mod Examples
pub mod Execution
pub mod Mapping
pub mod Migration
pub mod Offline
pub mod Plans
pub mod RunService
pub mod Security
pub mod Store
pub mod Worker
