-- ===== src/Store/Jobs/Fail.antt =====
-- internal/repository/postgres/jobs.go: `Fail`.
use k8s_migration.Base.{
  ℕ, String, not, ◌&&◌, ◌||◌, none, some, [], ◌∷◌, ◌==◌, if◌then◌else◌, update, delete, find,
  Result, ok, failure, not_found, or_fail, ◌>>=◌, ◌>>◌,
}
use k8s_migration.Migration.Model.{
  PlanStatus, Run, RunStatus, Step, StepType, StepStatus, step_failed, error,
}
use k8s_migration.Migration.Transitions.{validate_transition, requires_rollback}
use k8s_migration.Store.Tables.{
  has_status, find_run, find_step, update_run, update_step, update_attempt, set_plan_status,
  insert_event, insert_lease, insert_step,
}
use k8s_migration.Store.Tables.Rows.{AttemptStatus, Db, Lease, id_value, type_value}
use k8s_migration.Store.Jobs.Queue.{owned}
use k8s_migration.Store.Jobs.Complete.{is_rollback}

-- The row of a step that undoes a run, under its idempotency key.
unfoldable pub rollback_step : ℕ → ℕ → String → ℕ → Step
rollback_step id run key now = record {
  id = id;
  run_id = run;
  type = StepType.rollback;
  attempt = 1;
  status = StepStatus.pending;
  progress = 0;
  started_at = none;
  completed_at = none;
  summary = "";
  idempotency_key = key;
  created_at = now;
  updated_at = now;
}

-- The job is removed, and its step and its attempt have failed.
unfoldable pub fail_step : ℕ → String → ℕ → Lease → String → Db → Db
fail_step lease owner now job message db =
    update_attempt job.step_id job.attempt
      (λ a. record a {
        status = AttemptStatus.failed;
        completed_at = some now;
        lease_expires_at = none;
        error_code = "STEP_FAILED";
        error_message = message;
        diagnostic = message;
      })
      (update_step job.step_id
        (λ s. record s {
          status = StepStatus.failed;
          completed_at = some now;
          summary = message;
          updated_at = now;
        })
        (record db { leases = delete (owned lease owner) db.leases }))

-- A run that has not touched the source, or whose rollback failed, ends.
unfoldable pub fail_run : Run → ℕ → String → Db → Result Db
unfolding validate_transition
fail_run run now message db = do
  validate_transition run.status RunStatus.failed
  ok (
      set_plan_status run.plan_id PlanStatus.failed now (
        update_run run.id
          (λ r. record r {
            status = RunStatus.failed;
            completed_at = some now;
            error_code = step_failed;
            error_message = message;
            updated_at = now;
          })
          db))

-- UPDATE migration_steps SET status='SKIPPED',… WHERE migration_run_id=$1 AND status='PENDING'
unfoldable pub skip_pending : ℕ → ℕ → Db → Db
skip_pending run now db = record db {
  steps =
      update (λ s. s.run_id == run && has_status StepStatus.pending s)
        (λ s. record s {
          status = StepStatus.skipped;
          completed_at = some now;
          summary = "skipped after failure";
          updated_at = now;
        })
        db.steps;
}

-- Any other run is rolled back by a step of its own.
unfoldable pub start_rollback : Run → ℕ → ℕ → ℕ → String → Db → Result Db
unfolding validate_transition skip_pending rollback_step insert_step insert_lease
start_rollback run now fresh_step fresh_lease message db = do
  validate_transition run.status RunStatus.rolling_back
  let rolling : Db =
      update_run run.id
        (λ r. record r {
          status = RunStatus.rolling_back;
          error_code = step_failed;
          error_message = message;
          updated_at = now;
        })
        db
  created ←
      insert_step (rollback_step fresh_step run.id "rollback:v1" now)
        (skip_pending run.id now rolling)
  insert_lease fresh_lease run.id fresh_step now now created

unfoldable pub fail : Db → ℕ → ℕ → ℕ → ℕ → String → String → Result Db
unfolding fail_step fail_run start_rollback requires_rollback
fail db now fresh_step fresh_lease lease owner message = do
  job ← or_fail (find (owned lease owner) db.leases) not_found
  let failed = fail_step lease owner now job message db
  run ← or_fail (find_run job.run_id failed) (failure "read failed migration run")
  step ← or_fail (find_step job.step_id failed) (failure "read failed migration run")
  ended ←
      (if is_rollback step.type || not (requires_rollback run.status)
        then fail_run run now message failed
        else start_rollback run now fresh_step fresh_lease message failed)
  ok (
      insert_event job.run_id "STEP_FAILED" error message
        (("stepId", id_value job.step_id) ∷ ("stepType", type_value step.type) ∷ []) now ended)
