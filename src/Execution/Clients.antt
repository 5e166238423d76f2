-- ===== src/Execution/Clients.antt =====
-- internal/migration/velero_executor.go: the interfaces of the clients, with the records that they
-- take and return (internal/adapter/velero and internal/adapter/kubernetes). `W` is what the
-- clusters are in. A call that only reads leaves it alone; one that writes may change it also where
-- it fails. The bytes of a volume are `int64`, the other numbers of a status are not negative, and times are left out.
use k8s_migration.Base.{ℕ, String, Bool, Option, List, Result}
use k8s_migration.Security.Crypto.{Bytes}
use k8s_migration.Environment.{CsiDataMoverCapabilities}
use k8s_migration.Application.{ResourceReference}
use k8s_migration.Mapping.Profile.{Profile}

pub record BackupStorageLocationStatus : Type 0 where
  pub name : String
  pub phase : String
  pub message : String
  pub bucket : String
  pub prefix : String
  pub endpoint : String

pub record BackupSpec : Type 0 where
  pub namespace : String
  pub name : String
  pub storage_location : String
  pub included_namespaces : List String
  pub plan_id : String
  pub run_id : String
  pub ttl : ℕ
  pub snapshot_move_data : Bool
  pub data_mover : String
  pub label_selector : List (String × String)

pub record BackupStatus : Type 0 where
  pub name : String
  pub phase : String
  pub message : String
  pub warnings : ℕ
  pub errors : ℕ
  pub items_backed_up : ℕ
  pub total_items : ℕ

pub record RestoreSpec : Type 0 where
  pub excluded_resources : List String
  pub namespace : String
  pub name : String
  pub backup_name : String
  pub included_namespaces : List String
  pub namespace_mappings : List (String × String)
  pub plan_id : String
  pub run_id : String
  pub restore_pvs : Bool

pub record RestoreStatus : Type 0 where
  pub name : String
  pub phase : String
  pub message : String
  pub warnings : ℕ
  pub errors : ℕ
  pub items_restored : ℕ
  pub total_items : ℕ

-- `VolumeTransfer` of the adapter.
pub record VolumeProgress : Type 0 where
  pub name : String
  pub pod : String
  pub volume : String
  pub node : String
  pub phase : String
  pub bytes_done : ℕ
  pub total_bytes : ℕ
  pub message : String

pub record VeleroClient (W : Type 0) : Type 0 where
  pub storage_location_status : Bytes → String → String → W → Result BackupStorageLocationStatus
  pub create_backup : Bytes → BackupSpec → W → Result BackupStatus × W
  pub backup_status : Bytes → String → String → W → Result BackupStatus
  pub volume_transfers : Bytes → String → String → W → Result (List VolumeProgress)
  pub data_uploads : Bytes → String → String → W → Result (List VolumeProgress)
  pub data_downloads : Bytes → String → String → W → Result (List VolumeProgress)
  pub create_restore : Bytes → RestoreSpec → W → Result RestoreStatus × W
  pub restore_status : Bytes → String → String → W → Result RestoreStatus

pub record StagingSpec : Type 0 where
  pub namespace : String
  pub run_id : String
  pub pvc_names : List String
  pub helper_image : String
  pub labels : List (String × String)

pub record ScalableWorkload : Type 0 where
  pub namespace : String
  pub kind : String
  pub name : String
  pub replicas : ℕ

pub record PostRestoreMappingResult : Type 0 where
  pub examined : ℕ
  pub updated : ℕ
  pub verified : ℕ

pub record ResourceValidationResult : Type 0 where
  pub kind : String
  pub namespace : String
  pub name : String
  pub status : String
  pub message : String

pub record NamespaceValidation : Type 0 where
  pub deployments : ℕ
  pub stateful_sets : ℕ
  pub pvcs : ℕ
  pub services : ℕ
  pub ingresses : ℕ
  pub results : List ResourceValidationResult

pub record EndpointValidationSpec : Type 0 where
  pub namespace : String
  pub run_id : String
  pub http_checks : List String
  pub tcp_checks : List String
  pub helper_image : String
  pub timeout : ℕ

-- `label_resources` is there where the client is a `KubernetesResourceSelectionClient` too. The
-- validation of a namespace comes with an error where it has found problems.
pub record KubernetesClient (W : Type 0) : Type 0 where
  pub prepare_pvc_staging : Bytes → StagingSpec → W → Result (Unit {0}) × W
  pub delete_pvc_staging : Bytes → String → String → W → Result (Unit {0}) × W
  pub list_scalable_workloads : Bytes → String → W → Result (List ScalableWorkload)
  pub scale_workloads : Bytes → List ScalableWorkload → W → Result (Unit {0}) × W
  pub ensure_storage_class_mappings :
      Bytes → String → String → List (String × String) → W → Result (Unit {0}) × W
  pub delete_storage_class_mappings : Bytes → String → String → W → Result (Unit {0}) × W
  pub apply_post_restore_mappings :
      Bytes → String → Profile → W → Result PostRestoreMappingResult × W
  pub ensure_migration_namespace : Bytes → String → W → Result (Unit {0}) × W
  pub validate_namespace : Bytes → String → W → NamespaceValidation × Result (Unit {0})
  pub validate_endpoints : Bytes → EndpointValidationSpec → W → Result (Unit {0}) × W
  pub csi_data_mover_capabilities : Bytes → String → W → Result CsiDataMoverCapabilities
  pub label_resources :
      Option (Bytes → List ResourceReference → String → String → W → Result (Unit {0}) × W)
