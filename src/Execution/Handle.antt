-- ===== src/Execution/Handle.antt =====
-- internal/migration/velero_executor.go: `NewVeleroExecutor` with its option, and `Handle`.
use k8s_migration.Base.{
  ℕ, String, not, ◌&&◌, List, some, str_eq, trim_space, contains_text, failure, Result, ok, require,
  ◌>>◌,
}
use k8s_migration.Base.Exec.{Exec}
use k8s_migration.Migration.Model.{StepType}
use k8s_migration.Store.Tables.Rows.{Claimed}
use k8s_migration.Execution.Clients.{KubernetesClient}
use k8s_migration.Execution.State.{VeleroExecutor, State, unsupported, fail_with}
use k8s_migration.Execution.Quiesce.{quiesce, rollback}
use k8s_migration.Execution.Backup.{backup, verify_transfer}
use k8s_migration.Execution.Restore.{prepare_transform, restore}
use k8s_migration.Execution.Checks.{preflight, validate_target}

-- The intervals that pass in the loops of a step: the backup's or the restore's or the validation's
-- loop, and the loop that waits for the backup on the target.
pub record Waits (W : Type 0) : Type 0 where
  pub poll : List (W → W)
  pub sync : List (W → W)

module _ {W : Type 0} where
  unfoldable pub with_kubernetes_execution :
      KubernetesClient W → String → VeleroExecutor W → Result (VeleroExecutor W)
  unfolding trim_space contains_text
  with_kubernetes_execution client image e =
      require (not (str_eq (trim_space image) "") && contains_text image "@sha256:")
        (failure "Kubernetes execution client and digest-pinned staging image are required")
      >> ok (record e { kubernetes = some client; staging_image = image })

  abbrev pub handle_type : VeleroExecutor W → Waits W → StepType → ℕ → Exec (State W) (Unit {0})
  handle_type e waits StepType.preflight run = preflight e run
  handle_type e waits StepType.presync run = backup e run "presync" waits.poll
  handle_type e waits StepType.quiesce run = quiesce e run
  handle_type e waits StepType.final_backup run = backup e run "final" waits.poll
  handle_type e waits StepType.transfer run = verify_transfer e run
  handle_type e waits StepType.transform run = prepare_transform e run
  handle_type e waits StepType.restore run = restore e run waits.sync waits.poll
  handle_type e waits StepType.validation run = validate_target e run waits.poll
  handle_type e waits StepType.rollback run = rollback e run
  handle_type e waits StepType.await_cutover run = fail_with (unsupported "not a Velero step")
  handle_type e waits (StepType.other _) run = fail_with (unsupported "not a Velero step")

  unfoldable pub handle : VeleroExecutor W → Waits W → Claimed → Exec (State W) (Unit {0})
  unfolding preflight backup quiesce verify_transfer prepare_transform restore validate_target
      rollback
  handle e waits lease = handle_type e waits lease.step_type lease.run_id
