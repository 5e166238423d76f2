-- ===== src/Store/Jobs/Complete.antt =====
-- internal/repository/postgres/jobs.go: `Complete`.
use k8s_migration.Base.{
  ℕ, String, Bool, true, false, Option, none, some, [], ◌∷◌, ◌+++◌, if◌then◌else◌, delete, find,
  Result, ok, failure, not_found, or_fail, ◌>>=◌, ◌>>◌,
}
use k8s_migration.Migration.Model.{
  PlanStatus, RunStatus, Step, StepType, StepStatus, ErrorCode, no_code, cancel_requested,
  source_restore_requested, source_restored, step_failed, validation_reconciled, info,
}
use k8s_migration.Migration.Transitions.{validate_transition}
use k8s_migration.Migration.Texts.{type_text}
use k8s_migration.Store.Tables.{
  find_run, find_step, update_run, update_step, update_attempt, set_plan_status, insert_event,
  insert_lease, update_progress, next_pending,
}
use k8s_migration.Store.Tables.Rows.{AttemptStatus, Db, Lease, id_value, type_value}
use k8s_migration.Store.Jobs.Queue.{owned}

abbrev pub is_await_cutover : StepType → Bool
is_await_cutover StepType.await_cutover = true
is_await_cutover _ = false

abbrev pub is_rollback : StepType → Bool
is_rollback StepType.rollback = true
is_rollback _ = false

-- The gate is a running step with no job: only an administrator completes it.
unfoldable pub open_gate : ℕ → ℕ → ℕ → Db → Db
open_gate run step now db =
    insert_event run "AWAITING_CUTOVER" info "Migration is waiting for manual traffic cutover" []
      now
      (update_run run (λ r. record r { status = RunStatus.awaiting_cutover; updated_at = now })
        (update_step step
          (λ s. record s {
            status = StepStatus.running;
            started_at = some now;
            summary = "waiting for administrator confirmation";
            updated_at = now;
          })
          db))

-- Where a finished rollback leads, by why it was requested.
unfoldable pub rollback_outcome : ErrorCode → RunStatus × PlanStatus
rollback_outcome cancel_requested = (RunStatus.cancelled, PlanStatus.ready)
rollback_outcome source_restore_requested = (RunStatus.completed, PlanStatus.completed)
rollback_outcome no_code = (RunStatus.failed, PlanStatus.failed)
rollback_outcome source_restored = (RunStatus.failed, PlanStatus.failed)
rollback_outcome step_failed = (RunStatus.failed, PlanStatus.failed)
rollback_outcome validation_reconciled = (RunStatus.failed, PlanStatus.failed)

abbrev restored_code : ErrorCode → ErrorCode
restored_code source_restore_requested = source_restored
restored_code code = code

abbrev restored_message : ErrorCode → String → String
restored_message source_restore_requested message =
    "Source workload restored; target resources and migration evidence are retained"
restored_message code message = message

abbrev pub record_restored : ErrorCode → ℕ → ℕ → Db → Db
record_restored source_restore_requested run now db =
    insert_event run "SOURCE_RESTORE_COMPLETED" info
      "Source workload restoration completed; target resources were retained" [] now db
record_restored code run now db = db

unfoldable pub finish_rollback : ℕ → ℕ → Db → Result Db
unfolding rollback_outcome validate_transition
finish_rollback id now db = do
  run ← or_fail (find_run id db) (failure "read finishing migration run")
  let outcome = rollback_outcome run.error_code
  validate_transition run.status outcome.0
  let finished : Db =
      update_run id
        (λ r. record r {
          status = outcome.0;
          progress = 100;
          completed_at = some now;
          error_code = restored_code r.error_code;
          error_message = restored_message r.error_code r.error_message;
          updated_at = now;
        })
        db
  ok (record_restored run.error_code id now (set_plan_status run.plan_id outcome.1 now finished))

-- The step after a completed one: the cutover gate opens, or the step is queued. After the last
-- step only a rollback changes the run.
unfoldable pub after_step : ℕ → StepType → ℕ → ℕ → Option Step → Db → Result Db
unfolding open_gate insert_lease finish_rollback
after_step run completed now fresh (some next) db =
    if is_await_cutover next.type
    then ok (open_gate run next.id now db)
    else insert_lease fresh run next.id now now db
after_step run completed now fresh none db =
    if is_rollback completed then finish_rollback run now db else ok db

-- The job is done and removed, and its step and its attempt have succeeded.
unfoldable pub succeed_step : ℕ → String → ℕ → Lease → Db → Db
succeed_step lease owner now job db =
    update_attempt job.step_id job.attempt
      (λ a. record a {
        status = AttemptStatus.succeeded;
        completed_at = some now;
        heartbeat_at = some now;
        lease_expires_at = none;
      })
      (update_step job.step_id
        (λ s. record s {
          status = StepStatus.succeeded;
          progress = 100;
          completed_at = some now;
          updated_at = now;
        })
        (record db { leases = delete (owned lease owner) db.leases }))

unfoldable pub complete : Db → ℕ → ℕ → ℕ → String → Result Db
unfolding succeed_step update_progress next_pending after_step
complete db now fresh lease owner = do
  job ← or_fail (find (owned lease owner) db.leases) not_found
  let done = succeed_step lease owner now job db
  step ← or_fail (find_step job.step_id done) (failure "read completed migration step")
  let recorded : Db =
      insert_event job.run_id "STEP_SUCCEEDED" info
        ("Migration step " +++ type_text step.type +++ " completed")
        (("stepId", id_value job.step_id) ∷ ("stepType", type_value step.type) ∷ []) now done
  counted ← update_progress job.run_id now recorded
  after_step job.run_id step.type now fresh (next_pending job.run_id counted) counted
