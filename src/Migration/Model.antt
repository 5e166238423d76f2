-- ===== src/Migration/Model.antt =====
-- internal/domain/migration/model.go: the statuses, and the records of a plan, a run and a step.
-- A UUID is a number, `uuid.Nil` is 0, and a time is a number of milliseconds. A status column of
-- the database holds one of the listed values (a CHECK constraint), but the type of a step is any
-- text.
use k8s_migration.Base.{ℕ, String, Bool, Option, List}

pub data PlanStatus : Type 0 where
  draft ready blocked running completed failed : PlanStatus

pub data RunStatus : Type 0 where
  pending preflight presync quiesce final_backup transfer transform restore : RunStatus
  validation awaiting_cutover rolling_back completed failed cancelled : RunStatus

pub data StepType : Type 0 where
  preflight presync quiesce final_backup transfer transform restore : StepType
  validation await_cutover rollback : StepType
  other : String → StepType

pub data StepStatus : Type 0 where
  pending running succeeded failed skipped : StepStatus

pub data EventSeverity : Type 0 where
  info warning error : EventSeverity

pub data VolumeMode : Type 0 where
  no_volumes fs_backup csi_data_mover compose_kopia : VolumeMode
  other : String → VolumeMode

-- The values that the code writes into `error_code`.
pub data ErrorCode : Type 0 where
  no_code cancel_requested source_restore_requested source_restored step_failed
        validation_reconciled :
      ErrorCode

pub record Strategy : Type 0 where
  pub resource_mode : String
  pub volume_mode : VolumeMode
  pub pre_sync_enabled : Bool
  pub overwrite_existing_resources : Bool
  pub preserve_node_port : Bool
  pub pre_quiesce_hook : String
  pub post_rollback_hook : String

pub record ValidationPolicy : Type 0 where
  pub require_workloads_ready : Bool
  pub require_pvcs_bound : Bool
  pub http_checks : List String
  pub tcp_checks : List String
  pub timeout_seconds : ℕ

pub record Plan : Type 0 where
  pub id : ℕ
  pub name : String
  pub source_environment_id : ℕ
  pub target_environment_id : ℕ
  pub source_application_id : ℕ
  pub assessment_id : ℕ
  pub mapping_profile_id : Option ℕ
  pub strategy : Strategy
  pub validation_policy : ValidationPolicy
  pub status : PlanStatus
  pub created_at : ℕ
  pub updated_at : ℕ

-- The row of a run. `deleted_at` is the column that hides a deleted run from the task list.
pub record Run : Type 0 where
  pub id : ℕ
  pub plan_id : ℕ
  pub run_number : ℕ
  pub status : RunStatus
  pub progress : ℕ
  pub bytes_total : ℕ
  pub bytes_transferred : ℕ
  pub started_at : Option ℕ
  pub completed_at : Option ℕ
  pub error_code : ErrorCode
  pub error_message : String
  pub created_at : ℕ
  pub updated_at : ℕ
  pub deleted_at : Option ℕ

pub record Step : Type 0 where
  pub id : ℕ
  pub run_id : ℕ
  pub type : StepType
  pub attempt : ℕ
  pub status : StepStatus
  pub progress : ℕ
  pub started_at : Option ℕ
  pub completed_at : Option ℕ
  pub summary : String
  pub idempotency_key : String
  pub created_at : ℕ
  pub updated_at : ℕ
