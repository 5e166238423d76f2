-- ===== src/Store/Runs/Reconcile.antt =====
-- internal/repository/postgres/migration_evidence.go: `ReconcileValidationSuccess`, which completes a
-- run whose validation has failed, after a fresh check of the target.
use k8s_migration.Base.{
  ℕ, Bool, true, false, ◌&&◌, [], ◌∷◌, ◌==◌, if◌then◌else◌, update, any, some, Result, ok,
  not_found, conflict, require, or_fail, ◌>>=◌, ◌>>◌,
}
use k8s_migration.Migration.Model.{
  PlanStatus, RunStatus, Step, StepType, StepStatus, validation_reconciled, info,
}
use k8s_migration.Migration.Transitions.{same_status}
use k8s_migration.Store.Tables.{has_status, find_run, update_run, set_plan_status, insert_event}
use k8s_migration.Store.Tables.Rows.{Db, int_value}

abbrev is_validation : StepType → Bool
is_validation StepType.validation = true
is_validation _ = false

-- migration_run_id=$1 AND type='VALIDATION' AND status='FAILED'
abbrev pub has_failed_validation : ℕ → Step → Bool
has_failed_validation run s =
    s.run_id == run && (is_validation s.type && has_status StepStatus.failed s)

unfoldable pub reconcile_steps : ℕ → ℕ → Db → Db
reconcile_steps run now db = record db {
  steps =
      update (has_failed_validation run)
        (λ s. record s {
          status = StepStatus.succeeded;
          progress = 100;
          summary = "目标应用和必需资源复检全部通过";
          updated_at = now;
        })
        db.steps;
}

-- The event has the time of the check as its detail.
unfoldable pub reconcile_validation_success : Db → ℕ → ℕ → ℕ → Result Db
unfolding reconcile_steps
reconcile_validation_success db now id checked_at = do
  run ← or_fail (find_run id db) not_found
  (if same_status run.status RunStatus.completed then ok db else (do
    require (same_status run.status RunStatus.failed) conflict
    require (any (has_failed_validation id) db.steps) conflict
    let finished : Db =
        update_run id
          (λ r. record r {
            status = RunStatus.completed;
            progress = 100;
            completed_at = some checked_at;
            error_code = validation_reconciled;
            error_message = "";
            updated_at = now;
          })
          (reconcile_steps id now db)
    ok (
        insert_event id "VALIDATION_RECONCILED" info "目标应用和必需资源复检全部通过"
          (("checkedAt", int_value checked_at) ∷ []) now
          (set_plan_status run.plan_id PlanStatus.completed now finished))))
