-- ===== src/Execution/Restore.antt =====
-- internal/migration/velero_executor.go: `prepareTransform`, `waitForSyncedBackup` and `restore`. The
-- first list of waits is that of the loop that waits for the backup, the second that of the loop that
-- waits for the restore.
use k8s_migration.Base.{
  ℕ, String, Bool, true, false, Option, none, some, List, [], ◌∷◌, str_eq, ◌+++◌, ◌==◌, any, length,
  decimal, if◌then◌else◌, failure, Result, ok, err,
}
use k8s_migration.Base.Exec.{Exec, ◌>>=◌, ◌>>◌}
use k8s_migration.Mapping.Model.{KeyValue}
use k8s_migration.Migration.Model.{VolumeMode, info}
use k8s_migration.Store.Tables.Rows.{text_value, int_value}
use k8s_migration.Execution.Clients.{KubernetesClient, BackupStatus, RestoreSpec, RestoreStatus}
use k8s_migration.Execution.State.{
  VeleroExecutor, State, velero_namespace, fail_with, return, check, ask, act, read, sleep,
  cancelled, emit, configured,
}
use k8s_migration.Execution.Context.{ExecutionContext, resolve, backup_name, restore_name}
use k8s_migration.Execution.Quiesce.{list_snapshots, scalable_workloads}
use k8s_migration.Execution.Transfers.{is_csi_data_mover, record_data_mover_downloads}
use k8s_migration.Execution.Backup.{has_failed}

abbrev put_entry : String → String → List (String × String) → List (String × String)
put_entry key value [] = (key, value) ∷ []
put_entry key value ((k, v) ∷ entries) =
    if str_eq k key then (key, value) ∷ entries else (k, v) ∷ put_entry key value entries

-- The map of the pairs, of which a later one overwrites an earlier one.
unfoldable pub key_value_map : List KeyValue → List (String × String) → List (String × String)
key_value_map [] entries = entries
key_value_map (m ∷ ms) entries = key_value_map ms (put_entry m.source m.target entries)

-- The last mapping of the namespace is the one that counts.
unfoldable pub target_namespace : String → List KeyValue → String → String
target_namespace namespace [] found = found
target_namespace namespace (m ∷ ms) found =
    target_namespace namespace ms (if str_eq m.source namespace then m.target else found)

abbrev pub namespace_of : ExecutionContext → String
namespace_of c =
    target_namespace c.application.namespace c.mapping.namespaces c.application.namespace

unfoldable pub namespace_mappings : ExecutionContext → List (String × String)
unfolding target_namespace
namespace_mappings c =
    if any (λ m. str_eq m.source c.application.namespace) c.mapping.namespaces
    then (c.application.namespace, namespace_of c) ∷ []
    else []

abbrev excluded_resources : ExecutionContext → List String
excluded_resources c =
    if length c.application.inventory.pvcs == 0
    then "pods" ∷ "replicasets.apps" ∷ "events" ∷ "events.events.k8s.io" ∷ []
    else []

abbrev has_volumes : VolumeMode → Bool
has_volumes VolumeMode.no_volumes = false
has_volumes _ = true

-- What a reading says of the backup: it can be restored, it cannot, or it is not there yet.
abbrev pub synced : Result BackupStatus → Option Bool
synced (err _) = none
synced (ok status) =
    if str_eq status.phase "Completed"
    then some true
    else if has_failed status.phase
    then some false
    else none

module _ {W : Type 0} where
  unfoldable pub prepare_transform : VeleroExecutor W → ℕ → Exec (State W) (Unit {0})
  unfolding resolve key_value_map emit
  prepare_transform e run = do
    c ← read (λ db. resolve e db run)
    client ← configured e "Kubernetes restore transform is not configured"
    let mappings = key_value_map c.mapping.storage []
    act (
        client.ensure_storage_class_mappings c.target_kube velero_namespace (e.uuid_text run)
          mappings)
    emit e run "RESTORE_TRANSFORM_PREPARED" info
        ("Prepared "
          +++ (decimal (length mappings) +++ " StorageClass mappings for Velero restore"))
        (("storageClassMappings", int_value (length mappings))
          ∷ ("registryMappingsPendingPostRestore", int_value (length c.mapping.registries))
          ∷ [])

  unfoldable pub on_verdict : Option Bool → Exec (State W) (Unit {0}) → Exec (State W) (Unit {0})
  on_verdict (some true) later = return tt
  on_verdict (some false) later = fail_with (failure "target-synced Velero Backup is unusable")
  on_verdict none later = later

  abbrev pub backup_verdict :
      VeleroExecutor W → ExecutionContext → String → Exec (State W) (Option Bool)
  backup_verdict e c name s =
      (ok (synced (e.velero.backup_status c.target_kube velero_namespace name s.clusters)), s)

  unfoldable pub wait_for_synced_backup :
      VeleroExecutor W → ExecutionContext → String → List (W → W) → Exec (State W) (Unit {0})
  wait_for_synced_backup e c name [] = do
    verdict ← backup_verdict e c name
    on_verdict verdict (fail_with (failure "wait for target Velero Backup sync"))
  wait_for_synced_backup e c name (w ∷ ws) = do
    verdict ← backup_verdict e c name
    on_verdict verdict (sleep w >> wait_for_synced_backup e c name ws)

  abbrev pub restore_spec : VeleroExecutor W → ExecutionContext → RestoreSpec
  restore_spec e c = record {
    excluded_resources = excluded_resources c;
    namespace = velero_namespace;
    name = restore_name e.uuid_text c.run.id;
    backup_name = backup_name e.uuid_text c.run.id "final";
    included_namespaces = c.application.namespace ∷ [];
    namespace_mappings = namespace_mappings c;
    plan_id = e.uuid_text c.plan.id;
    run_id = e.uuid_text c.run.id;
    restore_pvs = has_volumes c.plan.strategy.volume_mode;
  }

  -- What follows a restore: the mappings, the cleanup, and the replicas of the workloads.
  unfoldable pub finish_target :
      VeleroExecutor W → ExecutionContext → KubernetesClient W → Exec (State W) (Unit {0})
  unfolding emit list_snapshots target_namespace
  finish_target e c client = do
    let run_id = e.uuid_text c.run.id
    result ← act (client.apply_post_restore_mappings c.target_kube (namespace_of c) c.mapping)
    emit e c.run.id "POST_RESTORE_MAPPINGS_APPLIED" info
        ("Applied and verified mutable mappings on "
          +++ (decimal result.verified +++ " target resources"))
        (("examined", int_value result.examined)
          ∷ ("updated", int_value result.updated)
          ∷ ("verified", int_value result.verified)
          ∷ [])
    act (client.delete_storage_class_mappings c.target_kube velero_namespace run_id)
    act (client.delete_pvc_staging c.target_kube (namespace_of c) run_id)
    snapshots ← list_snapshots c.run.id
    (if length snapshots == 0
        then return tt
        else act
            (client.scale_workloads c.target_kube (scalable_workloads snapshots (namespace_of c))))

  unfoldable pub finish_with :
      VeleroExecutor W → ExecutionContext → Option (KubernetesClient W) → Exec (State W) (Unit {0})
  unfolding finish_target
  finish_with e c none = return tt
  finish_with e c (some client) = finish_target e c client

  unfoldable pub report_restored :
      VeleroExecutor W → ExecutionContext → RestoreStatus → Exec (State W) (Unit {0})
  unfolding emit target_namespace
  report_restored e c status =
      emit e c.run.id "VELERO_RESTORE_COMPLETED" info
        ("Velero restore completed into namespace " +++ namespace_of c)
        (("restore", text_value status.name)
          ∷ ("namespace", text_value (namespace_of c))
          ∷ ("itemsRestored", int_value status.items_restored)
          ∷ ("totalItems", int_value status.total_items)
          ∷ [])

  -- Whether the restore has come to its end.
  unfoldable pub end_restore :
      VeleroExecutor W → ExecutionContext → RestoreStatus → Exec (State W) Bool
  unfolding report_restored
  end_restore e c status =
      if str_eq status.phase "Completed"
      then (do
        check (status.errors == 0) (failure "Velero Restore completed with errors")
        finish_with e c e.kubernetes
        report_restored e c status
        return true)
      else if has_failed status.phase
      then fail_with (failure "Velero Restore has failed")
      else return false

  unfoldable pub record_downloads : VeleroExecutor W → ExecutionContext → Exec (State W) (Unit {0})
  unfolding record_data_mover_downloads restore_name
  record_downloads e c =
      if is_csi_data_mover c.plan.strategy.volume_mode
      then (do _ ← record_data_mover_downloads e c (restore_name e.uuid_text c.run.id); return tt)
      else return tt

  unfoldable pub restore_loop :
      VeleroExecutor W → ExecutionContext → List (W → W) → RestoreStatus → Exec (State W) (Unit {0})
  unfolding record_downloads end_restore restore_name
  restore_loop e c [] status = do
    record_downloads e c
    ended ← end_restore e c status
    (if ended then return tt else fail_with cancelled)
  restore_loop e c (w ∷ ws) status = do
    record_downloads e c
    ended ← end_restore e c status
    (if ended then return tt else (do
      sleep w
      next ← ask (
          e.velero.restore_status c.target_kube velero_namespace
            (restore_name e.uuid_text c.run.id))
      restore_loop e c ws next))

  unfoldable pub ensure_namespace :
      ExecutionContext → Option (KubernetesClient W) → Exec (State W) (Unit {0})
  unfolding target_namespace
  ensure_namespace c none = return tt
  ensure_namespace c (some client) =
      act (client.ensure_migration_namespace c.target_kube (namespace_of c))

  unfoldable pub restore :
      VeleroExecutor W → ℕ → List (W → W) → List (W → W) → Exec (State W) (Unit {0})
  unfolding resolve backup_name restore_name wait_for_synced_backup restore_loop target_namespace
      namespace_mappings
  restore e run sync_waits waits = do
    c ← read (λ db. resolve e db run)
    wait_for_synced_backup e c (backup_name e.uuid_text run "final") sync_waits
    ensure_namespace c e.kubernetes
    status ← act (e.velero.create_restore c.target_kube (restore_spec e c))
    restore_loop e c waits status
