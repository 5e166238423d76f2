-- ===== src/Application.antt =====
-- internal/domain/application/model.go: a discovered application and its inventory. A map is a list of
-- its entries. The credential of a Compose definition and the definition itself are not read by
-- the modelled code.
use k8s_migration.Base.{ℕ, String, Bool, true, false, Option, List}

-- A type of another text is neither.
pub data SourceType : Type 0 where
  kubernetes compose : SourceType
  other : String → SourceType

abbrev pub is_kubernetes : SourceType → Bool
is_kubernetes SourceType.kubernetes = true
is_kubernetes _ = false

abbrev pub is_compose : SourceType → Bool
is_compose SourceType.compose = true
is_compose _ = false

pub record ResourceSummary : Type 0 where
  pub api_version : String
  pub kind : String
  pub namespace : String
  pub name : String
  pub labels : List (String × String)
  pub images : List String
  pub data_keys : List String
  pub secret_keys : List String
  pub replicas : Option ℕ
  pub ready_replicas : Option ℕ
  pub available_replicas : Option ℕ
  pub requests : List (String × String)
  pub limits : List (String × String)
  pub missing_requests : List String
  pub ingress_class_name : String
  pub service_type : String
  pub node_selectors : List (String × String)
  pub nfs_sources : List String
  pub security_risks : List String

pub record ResourceReference : Type 0 where
  pub api_version : String
  pub kind : String
  pub namespace : String
  pub name : String

pub record Dependency : Type 0 where
  pub origin : ResourceReference
  pub to : ResourceReference
  pub type : String
  pub required : Bool

pub record InventoryWarning : Type 0 where
  pub code : String
  pub resource : String
  pub message : String

pub record VolumeSummary : Type 0 where
  pub name : String
  pub namespace : String
  pub capacity_bytes : ℕ
  pub storage_class_name : String
  pub access_modes : List String
  pub volume_mode : String
  pub source : String
  pub phase : String

pub record ImageSummary : Type 0 where
  pub reference : String
  pub digest : String
  pub architectures : List String

pub record ComposePort : Type 0 where
  pub name : String
  pub target : ℕ
  pub published : String
  pub protocol : String
  pub host_ip : String

pub record ComposeMount : Type 0 where
  pub type : String
  pub source : String
  pub target : String
  pub read_only : Bool

pub record ComposeService : Type 0 where
  pub name : String
  pub image : String
  pub build : Bool
  pub profiles : List String
  pub depends_on : List String
  pub ports : List ComposePort
  pub expose : List String
  pub mounts : List ComposeMount
  pub networks : List String
  pub environment_keys : List String
  pub privileged : Bool
  pub network_mode : String

pub record ComposeResource : Type 0 where
  pub name : String
  pub runtime_name : String
  pub driver : String
  pub external : Bool

pub record ComposeWarning : Type 0 where
  pub code : String
  pub service : String
  pub message : String

pub record ComposeInventory : Type 0 where
  pub project_name : String
  pub status : String
  pub config_files : List String
  pub working_dir : String
  pub services : List ComposeService
  pub volumes : List ComposeResource
  pub networks : List ComposeResource
  pub configs : List String
  pub secrets : List String
  pub disabled_services : List String
  pub warnings : List ComposeWarning

pub record Inventory : Type 0 where
  pub resources : List ResourceSummary
  pub workloads : List ResourceSummary
  pub services : List ResourceSummary
  pub ingresses : List ResourceSummary
  pub config_maps : List ResourceSummary
  pub secrets : List ResourceSummary
  pub service_accounts : List ResourceSummary
  pub roles : List ResourceSummary
  pub role_bindings : List ResourceSummary
  pub crds : List ResourceSummary
  pub custom_resources : List ResourceSummary
  pub pvcs : List VolumeSummary
  pub images : List ImageSummary
  pub dependencies : List Dependency
  pub warnings : List InventoryWarning
  pub counts : List (String × ℕ)
  pub compose : Option ComposeInventory

pub record SourceApplication : Type 0 where
  pub id : ℕ
  pub environment_id : ℕ
  pub name : String
  pub source_type : SourceType
  pub namespace : String
  pub inventory : Inventory
  pub definition_credential_id : Option ℕ
  pub created_at : ℕ
  pub updated_at : ℕ
