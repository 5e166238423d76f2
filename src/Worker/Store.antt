-- ===== src/Worker/Store.antt =====
-- internal/worker/runner.go: the interface `JobStore`, and its implementation by the job repository.
use k8s_migration.Base.{ℕ, String, Bool, Option}
use k8s_migration.Base.Exec.{Exec, transact, execute}
use k8s_migration.Store.Tables.Rows.{Db, Claimed}
use k8s_migration.Store.Jobs.Queue.{heartbeat, retry}
use k8s_migration.Store.Jobs.Claim.{claim}
use k8s_migration.Store.Jobs.Complete.{complete}
use k8s_migration.Store.Jobs.Fail.{fail}

-- The state `S` is what the store keeps between two calls.
pub record JobStore (S : Type 0) : Type 0 where
  pub claim_job : String → ℕ → Exec S (Option Claimed)
  pub heartbeat_job : ℕ → String → ℕ → Exec S Unit
  pub complete_job : ℕ → String → Exec S Unit
  pub retry_job : ℕ → String → ℕ → String → Exec S Unit
  pub fail_job : ℕ → String → String → Exec S Unit

-- The job repository at a time, with the rows that other transactions hold, and with the UUIDs that
-- it draws.
unfoldable pub job_repository : ℕ → (ℕ → Bool) → (ℕ → ℕ) → JobStore Db
job_repository now locked uuid = record {
  claim_job = λ owner duration. transact (λ db. claim db now locked owner duration);
  heartbeat_job =
      λ lease owner duration db. (let (db', r) = heartbeat db now lease owner duration in (r, db'));
  complete_job = λ lease owner. execute (λ db. complete db now (uuid 0) lease owner);
  retry_job =
      λ lease owner available message. execute (λ db. retry db now lease owner available message);
  fail_job =
      λ lease owner message. execute (λ db. fail db now (uuid 0) (uuid 1) lease owner message);
}
