-- ===== src/Execution/Backup.antt =====
-- internal/migration/velero_executor.go: `backup`, with the staging pods that it leaves to no one, and
-- `verifyTransfer`. `waits` are the intervals of the poll that run off before the context is
-- cancelled, each with what the clusters do meanwhile.
use k8s_migration.Base.{
  ℕ, String, Bool, true, false, ◌&&◌, ◌||◌, not, Option, none, some, List, [], ◌∷◌, map, str_eq,
  ◌+++◌, ltb, ◌==◌, length, decimal, if◌then◌else◌, failure, Result, ok, err,
}
use k8s_migration.Base.Exec.{Exec, ◌>>=◌, ◌>>◌}
use k8s_migration.Security.Crypto.{Bytes}
use k8s_migration.Application.{ResourceSummary, ResourceReference}
use k8s_migration.Migration.Model.{VolumeMode, info}
use k8s_migration.Store.Tables.Rows.{text_value, int_value}
use k8s_migration.Execution.Clients.{KubernetesClient, StagingSpec, BackupSpec, BackupStatus}
use k8s_migration.Execution.State.{
  VeleroExecutor, State, velero_namespace, backup_location_name, resource_selection_label,
  unsupported, fail_with, return, check, ask, act, read, ignore, sleep, cancelled, emit, configured,
}
use k8s_migration.Execution.Context.{
  ExecutionContext, resolve, backup_name, manual_resource_selection,
}
use k8s_migration.Execution.Transfers.{is_csi_data_mover, record_transfers}

abbrev pub is_fs_backup : VolumeMode → Bool
is_fs_backup VolumeMode.fs_backup = true
is_fs_backup _ = false

abbrev pub has_failed : String → Bool
has_failed phase =
    str_eq phase "Failed" || (str_eq phase "FailedValidation" || str_eq phase "PartiallyFailed")

abbrev pub reference_of : ResourceSummary → ResourceReference
reference_of r = record {
  api_version = r.api_version;
  kind = r.kind;
  namespace = r.namespace;
  name = r.name;
}

abbrev is_new : Option ℕ → ℕ → Bool
is_new none transferred = true
is_new (some last) transferred = not (transferred == last)

module _ {W : Type 0} where
  abbrev pub run_text : VeleroExecutor W → ExecutionContext → String
  run_text e c = e.uuid_text c.run.id

  abbrev pub delete_staging :
      VeleroExecutor W → KubernetesClient W → ExecutionContext → Exec (State W) (Unit {0})
  delete_staging e client c =
      act (client.delete_pvc_staging c.source_kube c.application.namespace (run_text e c))

  -- The labels that select the resources, where an administrator has selected them.
  abbrev pub selection : VeleroExecutor W → ExecutionContext → List (String × String)
  selection e c =
      if manual_resource_selection c.application.inventory
      then (resource_selection_label, run_text e c) ∷ []
      else []

  abbrev pub staging_spec : VeleroExecutor W → ExecutionContext → StagingSpec
  staging_spec e c = record {
    namespace = c.application.namespace;
    run_id = run_text e c;
    pvc_names = map (λ v. v.name) c.application.inventory.pvcs;
    helper_image = e.staging_image;
    labels = selection e c;
  }

  -- The TTL is 7 days in milliseconds.
  abbrev pub backup_spec : VeleroExecutor W → ExecutionContext → String → BackupSpec
  backup_spec e c name = record {
    namespace = velero_namespace;
    name = name;
    storage_location = backup_location_name;
    included_namespaces = c.application.namespace ∷ [];
    plan_id = e.uuid_text c.plan.id;
    run_id = run_text e c;
    ttl = 604800000;
    snapshot_move_data = is_csi_data_mover c.plan.strategy.volume_mode;
    data_mover = "velero";
    label_selector = selection e c;
  }

  abbrev pub label_by :
      VeleroExecutor W
      → ExecutionContext
      → Option (Bytes → List ResourceReference → String → String → W → Result (Unit {0}) × W)
      → Exec (State W) (Unit {0})
  label_by e c none = fail_with (unsupported "exact Kubernetes resource selection is unavailable")
  label_by e c (some label_resources) = act (
      label_resources c.source_kube (map reference_of c.application.inventory.resources)
        resource_selection_label (run_text e c))

  unfoldable pub label_with :
      VeleroExecutor W → ExecutionContext → Option (KubernetesClient W) → Exec (State W) (Unit {0})
  label_with e c none = label_by e c none
  label_with e c (some client) = label_by e c client.label_resources

  unfoldable pub label_selected : VeleroExecutor W → ExecutionContext → Exec (State W) (Unit {0})
  label_selected e c =
      if manual_resource_selection c.application.inventory
      then label_with e c e.kubernetes
      else return tt

  unfoldable pub report_transfers :
      VeleroExecutor W → ExecutionContext → String → String → Option ℕ → Exec (State W) ℕ
  unfolding record_transfers emit
  report_transfers e c stage name last = do
    (transferred, total) ← record_transfers e c name
    (if is_new last transferred
        then ignore (
            emit e c.run.id "VOLUME_TRANSFER_PROGRESS" info
              ("Velero "
                +++ (stage
                    +++ (" volume progress "
                        +++ (decimal transferred +++ ("/" +++ (decimal total +++ " bytes"))))))
              (("stage", text_value stage)
                ∷ ("backup", text_value name)
                ∷ ("bytesTransferred", int_value transferred)
                ∷ ("bytesTotal", int_value total)
                ∷ []))
        else return tt)
    return transferred

  unfoldable pub clean :
      VeleroExecutor W → ExecutionContext → Option (KubernetesClient W) → Exec (State W) (Unit {0})
  clean e c none = return tt
  clean e c (some client) = delete_staging e client c

  -- Whether the backup has come to its end.
  unfoldable pub end_backup :
      VeleroExecutor W → ExecutionContext → BackupStatus → Exec (State W) Bool
  end_backup e c status =
      if str_eq status.phase "Completed"
      then (do
        check (status.errors == 0) (failure "Velero Backup completed with errors")
        clean e c e.kubernetes
        return true)
      else if has_failed status.phase
      then fail_with (failure "Velero Backup has failed")
      else return false

  unfoldable pub backup_loop :
      VeleroExecutor W
      → ExecutionContext
      → String
      → String
      → List (W → W)
      → Option ℕ
      → BackupStatus
      → Exec (State W) (Unit {0})
  unfolding report_transfers end_backup
  backup_loop e c stage name [] last status = do
    transferred ← report_transfers e c stage name last
    ended ← end_backup e c status
    (if ended then return tt else fail_with cancelled)
  backup_loop e c stage name (w ∷ ws) last status = do
    transferred ← report_transfers e c stage name last
    ended ← end_backup e c status
    (if ended then return tt else (do
      sleep w
      next ← ask (e.velero.backup_status c.source_kube velero_namespace name)
      backup_loop e c stage name ws (some transferred) next))

  unfoldable pub run_backup :
      VeleroExecutor W → ExecutionContext → String → List (W → W) → Exec (State W) (Unit {0})
  unfolding backup_name label_selected backup_loop
  run_backup e c stage waits = do
    let name = backup_name e.uuid_text c.run.id stage
    label_selected e c
    status ← act (e.velero.create_backup c.source_kube (backup_spec e c name))
    backup_loop e c stage name waits none status

  abbrev pub cleaned_up :
      VeleroExecutor W
      → KubernetesClient W
      → ExecutionContext
      → Result (Unit {0}) × State W
      → Result (Unit {0}) × State W
  cleaned_up e client c (ok tt, s) = (ok tt, s)
  cleaned_up e client c (err problem, s) = (err problem, (delete_staging e client c s).1)

  -- The deferred deletion of the staging pods, unless the backup has deleted them.
  unfoldable pub deferring :
      VeleroExecutor W
      → KubernetesClient W
      → ExecutionContext
      → Exec (State W) (Unit {0})
      → Exec (State W) (Unit {0})
  deferring e client c m s = cleaned_up e client c (m s)

  unfoldable pub backup : VeleroExecutor W → ℕ → String → List (W → W) → Exec (State W) (Unit {0})
  unfolding resolve run_backup deferring
  backup e run stage waits = do
    c ← read (λ db. resolve e db run)
    (if is_fs_backup c.plan.strategy.volume_mode && ltb 0 (length c.application.inventory.pvcs)
        then (do
          client ← configured e "Kubernetes PVC staging is not configured"
          act (client.prepare_pvc_staging c.source_kube (staging_spec e c))
          deferring e client c (run_backup e c stage waits))
        else run_backup e c stage waits)

  unfoldable pub verify_transfer : VeleroExecutor W → ℕ → Exec (State W) (Unit {0})
  unfolding resolve backup_name record_transfers
  verify_transfer e run = do
    c ← read (λ db. resolve e db run)
    let name = backup_name e.uuid_text run "final"
    status ← ask (e.velero.backup_status c.source_kube velero_namespace name)
    check (str_eq status.phase "Completed" && status.errors == 0)
        (failure "final Velero Backup is not transferable")
    _ ← record_transfers e c name
    return tt
