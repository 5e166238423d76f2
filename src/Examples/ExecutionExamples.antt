-- ===== src/Examples/ExecutionExamples.antt =====
-- Runs of the theorems on the executor.
use mathlib.Core.Path.{subst}
use k8s_migration.Base.{
  ℕ, ◌≡◌, ◌≢◌, ◌↔◌, refl, false, some, String, List, [], ◌∷◌, decimal, ok, err, failure, Option,
  ◌≤◌, arith,
}
use k8s_migration.Migration.Model.{StepType}
use k8s_migration.Store.Tables.Rows.{Claimed}
use k8s_migration.Execution.Clients.{VolumeProgress, BackupStatus}
use k8s_migration.Execution.Progress.{
  TransferEngine, TransferStatus, VolumeTransfer, upsert_volume_transfers,
}
use k8s_migration.Execution.State.{State}
use k8s_migration.Execution.Context.{resolve}
use k8s_migration.Execution.Quiesce.{quiesce, rollback}
use k8s_migration.Execution.Backup.{backup}
use k8s_migration.Execution.Restore.{
  target_namespace, on_verdict, ensure_namespace, finish_with, wait_for_synced_backup, restore,
}
use k8s_migration.Execution.Handle.{Waits, handle}
use k8s_migration.Execution.Restored.{Later, quiesce-rollback}
use k8s_migration.Execution.Target.{restore-replicas}
use k8s_migration.Execution.Cleanup.{backup-staged}
use k8s_migration.Execution.Incomplete.{is_complete, backup-ne-ok}
use k8s_migration.Execution.Verdicts.{Completes, readings, wait_for_synced_backup-Completes}
use k8s_migration.Execution.Bytes.{recorded, record_values-sums, record_values-unknown}
use k8s_migration.Execution.Transfers.{record_values}
use k8s_migration.Examples.Rows.{sample_db}
use k8s_migration.Examples.Clients.{
  Cluster, sample_client, sample_scaling, sample_staging, executor_at, running_state,
  sample_execution, status_at,
}

abbrev no_waits : Waits Cluster
no_waits = record { poll = []; sync = [] }

abbrev quiesce_job : Claimed
quiesce_job = record {
  id = 7;
  run_id = 5;
  step_id = 41;
  step_type = StepType.quiesce;
  idempotency_key = "";
  owner_id = "worker";
  attempt = 2;
  expires_at = 90;
}

abbrev quiesced : State Cluster
quiesced = (quiesce (executor_at "Completed") 5 running_state).1

-- The job is tried again after the first quiesce.
abbrev quiesced_twice : State Cluster
quiesced_twice = (handle (executor_at "Completed") no_waits quiesce_job quiesced).1

resolved : (phase : String) → resolve (executor_at phase) sample_db 5 ≡ ok sample_execution
unfolding resolve
resolved phase = refl

in_progress :
    (status : BackupStatus) → ok (status_at "InProgress") ≡ ok status → is_complete status ≡ false
in_progress status e =
    let same : status_at "InProgress" ≡ status = cc in subst (λ x. is_complete x ≡ false) same refl

quiesce-rollback_example :
    ◌≡◌ {A = Option ℕ}
      (some (
        (rollback (executor_at "Completed") 5 quiesced_twice).1.clusters.replicas "shop"
          "Deployment" "web"))
      (some 3)
unfolding quiesce rollback handle
quiesce-rollback_example =
    quiesce-rollback sample_client sample_scaling (executor_at "Completed")
      (executor_at "Completed") 5 running_state quiesced_twice sample_execution sample_execution _
      "shop" "Deployment" "web" 3 refl refl (resolved "Completed") refl refl refl tt refl refl refl
      refl (Later.handled Later.here (executor_at "Completed") no_waits quiesce_job) refl

restore-replicas_example :
    ◌≡◌ {A = Option ℕ}
      (some (
        (restore (executor_at "Completed") 5 [] [] quiesced_twice).1.clusters.replicas "shop"
          "Deployment" "web"))
      (some 3)
unfolding resolve quiesce handle restore target_namespace on_verdict ensure_namespace finish_with
    decimal
restore-replicas_example =
    restore-replicas sample_client sample_scaling (executor_at "Completed") 5 quiesced_twice
      sample_execution "Deployment" "web" 3 [] [] refl refl refl (refl, ((λ _. refl), tt)) refl

backup-staged_example :
    (backup (executor_at "Failed") 5 "final" ((λ w. w) ∷ []) running_state).1.clusters.staged
    ≡ false
backup-staged_example =
    backup-staged sample_client sample_staging (executor_at "Failed") 5 "final" ((λ w. w) ∷ [])
      running_state sample_execution refl (resolved "Failed") refl refl refl (λ w. refl)

backup-ne-ok_example :
    (backup (executor_at "InProgress") 5 "final" ((λ w. w) ∷ []) running_state).0 ≢ ok tt
backup-ne-ok_example =
    backup-ne-ok (executor_at "InProgress") (λ kube spec w status p. in_progress status p)
      (λ kube name w status p. in_progress status p) 5 "final" ((λ w. w) ∷ []) running_state

wait_for_synced_backup-Completes_example :
    ((wait_for_synced_backup
        (executor_at "Completed")
        sample_execution
        "b"
        ((λ w. w) ∷ [])
        running_state).0
      ≡ ok tt)
    ↔ Completes (
        readings
          (executor_at "Completed")
          sample_execution
          "b"
          ((λ w. w) ∷ [])
          running_state.clusters)
wait_for_synced_backup-Completes_example =
    wait_for_synced_backup-Completes (executor_at "Completed") sample_execution "b" ((λ w. w) ∷ [])
      running_state

abbrev progress : ℕ → ℕ → VolumeProgress
progress done total = record {
  name = "";
  pod = "web-0";
  volume = "data";
  node = "";
  phase = "InProgress";
  bytes_done = done;
  total_bytes = total;
  message = "";
}

abbrev transfer : ℕ → String → VolumeTransfer
transfer id volume = record {
  id = id;
  run_id = 5;
  engine = TransferEngine.csi_data_mover;
  namespace = "shop";
  source_volume = volume;
  target_volume = volume;
  total_bytes = 10;
  transferred_bytes = 4;
  throughput_bytes_per_second = 0;
  retry_count = 0;
  checksum_status = "";
  status = TransferStatus.running;
  error_message = "";
  created_at = 0;
  updated_at = 0;
}

-- The rows that one transfer leaves.
abbrev stored_rows : List VolumeTransfer
unfolding upsert_volume_transfers
stored_rows = elim (upsert_volume_transfers (λ n. n) 30 [] 5 (transfer 0 "data" ∷ [])) [
  | ok rows ↦ rows
  | err _ ↦ []
]

record_values-sums_example :
    (record_values
        (executor_at "Completed")
        sample_execution
        (progress 4 10 ∷ progress 15 10 ∷ [])
        (transfer 0 "data" ∷ [])
        running_state
      ≡ (
        ok (14, 20),
        recorded 30 5 (progress 4 10 ∷ progress 15 10 ∷ []) stored_rows running_state,
      ))
    × (14 ≤ 20)
unfolding upsert_volume_transfers stored_rows
record_values-sums_example =
    record_values-sums (executor_at "Completed") sample_execution (transfer 0 "data" ∷ [])
      stored_rows running_state refl refl (progress 4 10 ∷ progress 15 10 ∷ [])
      ((omega arith, λ h. absurd (omega arith)), ((omega arith, λ h. absurd (omega arith)), tt))
      (omega arith)

record_values-unknown_example :
    (record_values
      (executor_at "Completed")
      sample_execution
      (progress 4 0 ∷ progress 10 10 ∷ [])
      (transfer 0 "data" ∷ [])
      running_state).0
    ≡ err (failure "migration byte progress is invalid")
unfolding upsert_volume_transfers stored_rows
record_values-unknown_example =
    record_values-unknown (executor_at "Completed") sample_execution (transfer 0 "data" ∷ [])
      stored_rows running_state refl refl (progress 4 0) (progress 10 10 ∷ []) refl (omega arith)
      (refl, tt) (omega arith) (omega arith)
