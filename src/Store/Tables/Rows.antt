-- ===== src/Store/Tables/Rows.antt =====
-- The rows of the tables that have no record in the domain model, and the database.
use k8s_migration.Base.{ℕ, String, Option, List}
use k8s_migration.Migration.Model.{Plan, Run, Step, StepType, EventSeverity}

-- A row of `job_leases`. The owner of a job that nobody has claimed is the empty text.
pub record Lease : Type 0 where
  pub id : ℕ
  pub run_id : ℕ
  pub step_id : ℕ
  pub owner_id : String
  pub lease_expires_at : Option ℕ
  pub heartbeat_at : Option ℕ
  pub attempt : ℕ
  pub available_at : ℕ
  pub created_at : ℕ
  pub updated_at : ℕ

pub data AttemptStatus : Type 0 where
  running succeeded retry_scheduled failed : AttemptStatus

-- A row of `migration_step_attempts`.
pub record Attempt : Type 0 where
  pub step_id : ℕ
  pub attempt : ℕ
  pub status : AttemptStatus
  pub started_at : ℕ
  pub completed_at : Option ℕ
  pub heartbeat_at : Option ℕ
  pub lease_expires_at : Option ℕ
  pub next_attempt_at : Option ℕ
  pub error_code : String
  pub error_message : String
  pub diagnostic : String

-- A value in the JSON detail of an event.
pub data Value : Type 0 where
  id_value int_value time_value : ℕ → Value
  type_value : StepType → Value
  text_value : String → Value

-- A row of `migration_events`.
pub record Event : Type 0 where
  pub id : ℕ
  pub run_id : ℕ
  pub type : String
  pub severity : EventSeverity
  pub message : String
  pub detail : List (String × Value)
  pub created_at : ℕ

-- A row of `cutover_confirmations`.
pub record Confirmation : Type 0 where
  pub id : ℕ
  pub run_id : ℕ
  pub administrator_id : ℕ
  pub checklist : List String

-- `next_event` is the next value of the identity column of `migration_events`.
pub record Db : Type 0 where
  pub plans : List Plan
  pub runs : List Run
  pub steps : List Step
  pub leases : List Lease
  pub attempts : List Attempt
  pub events : List Event
  pub confirmations : List Confirmation
  pub next_event : ℕ

-- What `Claim` hands to the worker (`Lease` of internal/domain/migration/model.go).
pub record Claimed : Type 0 where
  pub id : ℕ
  pub run_id : ℕ
  pub step_id : ℕ
  pub step_type : StepType
  pub idempotency_key : String
  pub owner_id : String
  pub attempt : ℕ
  pub expires_at : ℕ
