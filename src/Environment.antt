-- ===== src/Environment.antt =====
-- internal/domain/environment/model.go: environments and what was discovered of them. A map is a list
-- of its entries. The map of security settings, which no modelled code reads, is left out.
use k8s_migration.Base.{
  ℕ, String, Bool, true, false, not, ◌&&◌, ◌||◌, Option, List, [], ◌∷◌, str_eq, trim_space,
  equal_fold, if◌then◌else◌, any, Result, failure, require, ◌>>◌,
}

-- A role or a kind of another text fails the check of an environment.
pub data Role : Type 0 where
  source target : Role
  other : String → Role

pub data Kind : Type 0 where
  kubernetes docker_compose : Kind
  other : String → Kind

pub data Status : Type 0 where
  pending connected disconnected error : Status

pub record StorageClass : Type 0 where
  pub name : String
  pub provisioner : String
  pub default : Bool
  pub allow_expansion : Bool
  pub volume_binding_mode : String

pub record VolumeSnapshotClass : Type 0 where
  pub name : String
  pub driver : String
  pub deletion_policy : String

pub record CsiDataMoverCapabilities : Type 0 where
  pub snapshot_api : Bool
  pub data_upload_api : Bool
  pub data_download_api : Bool
  pub backup_repository_api : Bool
  pub enable_csi : Bool
  pub node_agent_desired : ℕ
  pub node_agent_ready : ℕ
  pub backup_ready : Bool
  pub restore_ready : Bool

pub record Capabilities : Type 0 where
  pub kubernetes_version : String
  pub architectures : List String
  pub operating_systems : List String
  pub node_count : ℕ
  pub namespace_count : ℕ
  pub storage_classes : List StorageClass
  pub csi_drivers : List String
  pub volume_snapshot_classes : List String
  pub volume_snapshot_class_details : List VolumeSnapshotClass
  pub csi_data_mover : CsiDataMoverCapabilities
  pub ingress_classes : List String
  pub api_groups : List String
  pub allocatable : List (String × String)
  pub runtime : List (String × String)

-- The loop over the storage classes, which ends at the first that serves the name.
abbrev pub provisioner_of : String → List StorageClass → String
provisioner_of name [] = ""
provisioner_of name (c ∷ cs) =
    if str_eq c.name name || (str_eq name "" && c.default)
    then c.provisioner
    else provisioner_of name cs

-- The driver, and whether there is a snapshot class for it.
unfoldable pub snapshot_driver_for_storage_class : Capabilities → String → String × Bool
snapshot_driver_for_storage_class c name =
    let provisioner = provisioner_of name c.storage_classes in
    if str_eq provisioner ""
    then ("", false)
    else (provisioner, any (λ s. str_eq s.driver provisioner) c.volume_snapshot_class_details)

abbrev all_linux : List String → Bool
all_linux [] = true
all_linux (s ∷ ss) = equal_fold s "linux" && all_linux ss

unfoldable pub supports_raw_block_data_mover : Capabilities → Bool
supports_raw_block_data_mover c = elim c.operating_systems [
  | [] ↦ false
  | s ∷ ss ↦ all_linux (s ∷ ss)
]

pub record Environment : Type 0 where
  pub id : ℕ
  pub name : String
  pub role : Role
  pub kind : Kind
  pub endpoint : String
  pub credential_id : Option ℕ
  pub status : Status
  pub status_message : String
  pub capabilities : Capabilities
  pub capabilities_updated_at : Option ℕ
  pub created_at : ℕ
  pub updated_at : ℕ

abbrev is_role : Role → Bool
is_role (Role.other _) = false
is_role _ = true

abbrev is_kind : Kind → Bool
is_kind (Kind.other _) = false
is_kind _ = true

abbrev pub is_source : Role → Bool
is_source Role.source = true
is_source _ = false

abbrev pub is_target : Role → Bool
is_target Role.target = true
is_target _ = false

abbrev pub is_kubernetes : Kind → Bool
is_kubernetes Kind.kubernetes = true
is_kubernetes _ = false

abbrev pub is_docker_compose : Kind → Bool
is_docker_compose Kind.docker_compose = true
is_docker_compose _ = false

abbrev pub is_connected : Status → Bool
is_connected Status.connected = true
is_connected _ = false

unfoldable pub validate : Environment → Result (Unit {0})
validate e = do
  require (not (str_eq (trim_space e.name) "")) (failure "environment name is required")
  require (is_role e.role) (failure "environment role must be SOURCE or TARGET")
  require (is_kind e.kind) (failure "environment kind must be KUBERNETES or DOCKER_COMPOSE")
  require (not (is_target e.role && not (is_kubernetes e.kind)))
      (failure "target environment must be KUBERNETES")
