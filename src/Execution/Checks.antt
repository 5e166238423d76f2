-- ===== src/Execution/Checks.antt =====
-- internal/migration/velero_executor.go: `preflight` and `validateTarget`, with
-- internal/migration/validation_wait.go. The results of the validation, which its event lists, are
-- left out of the detail of the event.
use Prim.Native.Char.{Char, code}
use k8s_migration.Base.{
  ℕ, ◌*◌, String, Bool, not, ◌&&◌, ◌||◌, List, [], ◌∷◌, str_eq, ◌+++◌, ◌==◌, equal_fold, length,
  decimal, if◌then◌else◌, failure, Result, ok, err,
}
use k8s_migration.Base.Exec.{Exec, ◌>>=◌, ◌>>◌}
use k8s_migration.Environment.{
  Environment, snapshot_driver_for_storage_class, supports_raw_block_data_mover,
}
use k8s_migration.Application.{VolumeSummary}
use k8s_migration.Migration.Model.{EventSeverity, info, error}
use k8s_migration.Store.Tables.Rows.{text_value, int_value}
use k8s_migration.Execution.Clients.{BackupStorageLocationStatus, NamespaceValidation}
use k8s_migration.Execution.State.{
  VeleroExecutor, State, velero_namespace, backup_location_name, return, lift, check, ask, act,
  read, emit, configured,
}
use k8s_migration.Execution.Context.{ExecutionContext, resolve}
use k8s_migration.Execution.Transfers.{is_csi_data_mover}
use k8s_migration.Execution.Restore.{target_namespace, namespace_of}
use k8s_migration.Security.Crypto.{Bytes}

trim_left_slashes : String → String
trim_left_slashes String.[] = String.[]
trim_left_slashes (String.◌∷◌ c s) =
    let rest = trim_left_slashes s in if code c == b'/' then rest else String.◌∷◌ c s

put_unless_slash : Char → String → String
put_unless_slash c String.[] = if code c == b'/' then String.[] else String.◌∷◌ c String.[]
put_unless_slash c (String.◌∷◌ d s) = String.◌∷◌ c (String.◌∷◌ d s)

-- `strings.TrimRight` of slashes.
unfoldable pub trim_right_slashes : String → String
unfolding put_unless_slash
trim_right_slashes String.[] = String.[]
trim_right_slashes (String.◌∷◌ c s) = put_unless_slash c (trim_right_slashes s)

-- `strings.Trim` of slashes.
unfoldable pub trim_slashes : String → String
unfolding trim_left_slashes trim_right_slashes
trim_slashes s = trim_right_slashes (trim_left_slashes s)

-- Two values that are both known differ.
abbrev differ : String → String → String → String → Bool
differ source target s t = not (str_eq source "") && (not (str_eq target "") && not (str_eq s t))

unfoldable pub same_backup_repository :
    BackupStorageLocationStatus → BackupStorageLocationStatus → Bool
unfolding trim_slashes trim_right_slashes
same_backup_repository source target = not (
    differ source.bucket target.bucket source.bucket target.bucket
    || (differ source.prefix target.prefix (trim_slashes source.prefix) (trim_slashes target.prefix)
        || differ source.endpoint target.endpoint (trim_right_slashes source.endpoint)
            (trim_right_slashes target.endpoint)))

abbrev severity_of : Result (Unit {0}) → EventSeverity
severity_of (ok _) = info
severity_of (err _) = error

abbrev message_of : NamespaceValidation → Result (Unit {0}) → String
message_of result (ok _) =
    "Collected validation results for "
    +++ (decimal (length result.results) +++ " target resources")
message_of result (err _) = "Target resource validation found failures"

module _ {W : Type 0} where
  abbrev available_location : VeleroExecutor W → Bytes → Exec (State W) BackupStorageLocationStatus
  available_location e kube = do
    status ← ask (e.velero.storage_location_status kube velero_namespace backup_location_name)
    check (str_eq status.phase "Available")
        (failure "Velero BackupStorageLocation is not available")
    return status

  unfoldable pub check_volume : Environment → VolumeSummary → Exec (State W) (Unit {0})
  unfolding snapshot_driver_for_storage_class supports_raw_block_data_mover
  check_volume source v = do
    check (snapshot_driver_for_storage_class source.capabilities v.storage_class_name).1
        (failure "PVC has no VolumeSnapshotClass matching its StorageClass provisioner")
    check
        (not (
          equal_fold v.volume_mode "Block"
          && not (supports_raw_block_data_mover source.capabilities)))
        (failure "PVC is Raw Block but the source environment is not confirmed Linux-only")

  unfoldable pub check_volumes : Environment → List VolumeSummary → Exec (State W) (Unit {0})
  unfolding check_volume
  check_volumes source [] = return tt
  check_volumes source (v ∷ vs) = check_volume source v >> check_volumes source vs

  unfoldable pub check_data_mover : VeleroExecutor W → ExecutionContext → Exec (State W) (Unit {0})
  unfolding check_volumes
  check_data_mover e c = do
    client ← configured e "Kubernetes CSI Data Mover probe is not configured"
    source ← ask (client.csi_data_mover_capabilities c.source_kube velero_namespace)
    check source.backup_ready (failure "source CSI Data Mover runtime is not ready")
    target ← ask (client.csi_data_mover_capabilities c.target_kube velero_namespace)
    check target.restore_ready (failure "target CSI Data Mover runtime is not ready")
    check_volumes c.source c.application.inventory.pvcs

  unfoldable pub preflight : VeleroExecutor W → ℕ → Exec (State W) (Unit {0})
  unfolding resolve same_backup_repository check_data_mover emit
  preflight e run = do
    c ← read (λ db. resolve e db run)
    source ← available_location e c.source_kube
    target ← available_location e c.target_kube
    check (same_backup_repository source target) (
        failure
          "source and target Velero BackupStorageLocations must use the same object storage repository")
    (if is_csi_data_mover c.plan.strategy.volume_mode then check_data_mover e c else return tt)
    emit e run "EXECUTION_PREFLIGHT_PASSED" info
        "Source and target Velero BackupStorageLocations are Available" []

  -- `waits` are the ticks before the deadline of the validation.
  unfoldable pub wait_for_namespace_validation :
      (W → NamespaceValidation × Result (Unit {0}))
      → List (W → W)
      → State W
      → (NamespaceValidation × Result (Unit {0})) × State W
  wait_for_namespace_validation validate [] s =
      let (result, outcome) = validate s.clusters in
      elim outcome [
        | ok _ ↦ ((result, ok tt), s)
        | err _ ↦ ((result, err (failure "target resources did not become ready")), s)
      ]
  wait_for_namespace_validation validate (w ∷ ws) s =
      let (result, outcome) = validate s.clusters in
      elim outcome [
        | ok _ ↦ ((result, ok tt), s)
        | err _ ↦ wait_for_namespace_validation validate ws (record s { clusters = w s.clusters })
      ]

  abbrev pub validated :
      (NamespaceValidation × Result (Unit {0})) × State W
      → Result (NamespaceValidation × Result (Unit {0})) × State W
  validated (answer, s) = (ok answer, s)

  unfoldable pub validate_target : VeleroExecutor W → ℕ → List (W → W) → Exec (State W) (Unit {0})
  unfolding resolve wait_for_namespace_validation target_namespace emit
  validate_target e run waits = do
    c ← read (λ db. resolve e db run)
    client ← configured e "Kubernetes target validation is not configured"
    let namespace = namespace_of c
    let policy = c.plan.validation_policy
    answer ← (λ s.
        validated (
          wait_for_namespace_validation (client.validate_namespace c.target_kube namespace) waits
            s))
    emit e run "TARGET_RESOURCE_VALIDATION_COLLECTED" (severity_of answer.1)
        (message_of answer.0 answer.1) (("namespace", text_value namespace) ∷ [])
    lift answer.1
    act (
        client.validate_endpoints c.target_kube (record {
          namespace = namespace;
          run_id = e.uuid_text run;
          http_checks = policy.http_checks;
          tcp_checks = policy.tcp_checks;
          helper_image = e.staging_image;
          timeout = policy.timeout_seconds * 1000;
        }))
    emit e run "TARGET_BASIC_VALIDATION_PASSED" info
        ("Target namespace " +++ (namespace +++ " resources and configured endpoints are ready"))
        (("namespace", text_value namespace)
          ∷ ("deployments", int_value answer.0.deployments)
          ∷ ("statefulSets", int_value answer.0.stateful_sets)
          ∷ ("pvcs", int_value answer.0.pvcs)
          ∷ ("services", int_value answer.0.services)
          ∷ ("ingresses", int_value answer.0.ingresses)
          ∷ ("httpChecks", int_value (length policy.http_checks))
          ∷ ("tcpChecks", int_value (length policy.tcp_checks))
          ∷ [])
