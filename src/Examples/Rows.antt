-- ===== src/Examples/Rows.antt =====
-- Rows of a migration that has stopped its source (internal/repository/postgres/jobs_test.go works on
-- such rows).
use k8s_migration.Base.{ℕ, true, false, none, some, [], ◌∷◌}
use k8s_migration.Migration.Model.{
  Plan, PlanStatus, Run, RunStatus, Step, StepType, StepStatus, Strategy, ValidationPolicy,
  VolumeMode, no_code,
}
use k8s_migration.Store.Tables.Rows.{Db, Lease}

abbrev pub sample_strategy : Strategy
sample_strategy = record {
  resource_mode = "VELERO";
  volume_mode = VolumeMode.fs_backup;
  pre_sync_enabled = true;
  overwrite_existing_resources = false;
  preserve_node_port = false;
  pre_quiesce_hook = "";
  post_rollback_hook = "";
}

abbrev pub sample_policy : ValidationPolicy
sample_policy = record {
  require_workloads_ready = true;
  require_pvcs_bound = true;
  http_checks = [];
  tcp_checks = [];
  timeout_seconds = 600;
}

abbrev pub sample_plan : Plan
sample_plan = record {
  id = 3;
  name = "shop";
  source_environment_id = 31;
  target_environment_id = 32;
  source_application_id = 33;
  assessment_id = 34;
  mapping_profile_id = none;
  strategy = sample_strategy;
  validation_policy = sample_policy;
  status = PlanStatus.running;
  created_at = 10;
  updated_at = 10;
}

abbrev pub sample_run : Run
sample_run = record {
  id = 5;
  plan_id = 3;
  run_number = 1;
  status = RunStatus.quiesce;
  progress = 0;
  bytes_total = 0;
  bytes_transferred = 0;
  started_at = some 20;
  completed_at = none;
  error_code = no_code;
  error_message = "";
  created_at = 20;
  updated_at = 20;
  deleted_at = none;
}

abbrev pub sample_step : ℕ → StepType → ℕ → Step
sample_step id type created = record {
  id = id;
  run_id = 5;
  type = type;
  attempt = 1;
  status = StepStatus.pending;
  progress = 0;
  started_at = none;
  completed_at = none;
  summary = "";
  idempotency_key = "";
  created_at = created;
  updated_at = 20;
}

abbrev pub sample_lease : Lease
sample_lease = record {
  id = 7;
  run_id = 5;
  step_id = 41;
  owner_id = "";
  lease_expires_at = none;
  heartbeat_at = none;
  attempt = 0;
  available_at = 20;
  created_at = 20;
  updated_at = 20;
}

abbrev pub quiesce_step : Step
quiesce_step = sample_step 41 StepType.quiesce 21

abbrev pub backup_step : Step
backup_step = sample_step 42 StepType.final_backup 22

-- The job of the first step waits for a worker.
abbrev pub sample_db : Db
sample_db = record {
  plans = sample_plan ∷ [];
  runs = sample_run ∷ [];
  steps = quiesce_step ∷ backup_step ∷ [];
  leases = sample_lease ∷ [];
  attempts = [];
  events = [];
  confirmations = [];
  next_event = 1;
}
