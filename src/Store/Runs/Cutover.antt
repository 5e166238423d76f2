-- ===== src/Store/Runs/Cutover.antt =====
-- internal/repository/postgres/migration.go: `ConfirmCutover`.
use k8s_migration.Base.{
  ℕ, String, ◌&&◌, List, [], ◌∷◌, ◌++◌, ◌==◌, if◌then◌else◌, update, any, some, Result, ok,
  not_found, conflict, require, or_fail, ◌>>=◌, ◌>>◌,
}
use k8s_migration.Migration.Model.{PlanStatus, RunStatus, StepStatus, info}
use k8s_migration.Migration.Transitions.{same_status}
use k8s_migration.Store.Tables.{has_status, find_run, update_run, set_plan_status, insert_event}
use k8s_migration.Store.Tables.Rows.{Db, Confirmation, id_value}
use k8s_migration.Store.Jobs.Complete.{is_await_cutover}

-- INSERT INTO cutover_confirmations … ON CONFLICT (migration_run_id) DO NOTHING
unfoldable pub confirm : Confirmation → Db → Db
confirm new db =
    if any (λ c. c.run_id == new.run_id) db.confirmations
    then db
    else record db { confirmations = db.confirmations ++ new ∷ [] }

-- UPDATE migration_steps … AND type='AWAIT_CUTOVER' AND status='RUNNING'
unfoldable pub close_gate : ℕ → ℕ → Db → Db
close_gate run now db = record db {
  steps =
      update (λ s. s.run_id == run && (is_await_cutover s.type && has_status StepStatus.running s))
        (λ s. record s {
          status = StepStatus.succeeded;
          progress = 100;
          completed_at = some now;
          summary = "manual traffic cutover confirmed";
          updated_at = now;
        })
        db.steps;
}

unfoldable pub confirm_cutover : Db → ℕ → ℕ → ℕ → ℕ → List String → Result Db
unfolding confirm close_gate
confirm_cutover db now fresh id administrator checklist = do
  run ← or_fail (find_run id db) not_found
  require (same_status run.status RunStatus.awaiting_cutover) conflict
  let confirmed : Db =
      confirm
        (record {
          id = fresh;
          run_id = id;
          administrator_id = administrator;
          checklist = checklist;
        })
        db
  let finished : Db =
      update_run id
        (λ r. record r {
          status = RunStatus.completed;
          progress = 100;
          completed_at = some now;
          updated_at = now;
        })
        (close_gate id now confirmed)
  ok (
      insert_event id "CUTOVER_CONFIRMED" info "Manual traffic cutover was confirmed"
        (("administratorId", id_value administrator) ∷ []) now
        (set_plan_status run.plan_id PlanStatus.completed now finished))
