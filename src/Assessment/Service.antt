-- ===== src/Assessment/Service.antt =====
-- internal/assessment/service.go over the tables that it reads and writes, and the engine that has all
-- rules (internal/assessment/engine.go: `DefaultEngine`).
use k8s_migration.Base.{
  ◌≡◌, refl, ℕ, String, Bool, true, false, not, ◌&&◌, ◌||◌, Option, none, some, List, [], ◌∷◌, ◌==◌,
  trim_space, if◌then◌else◌, Result, ok, invalid_input, require, ◌>>=◌, ◌>>◌,
}
use k8s_migration.Environment.{Capabilities, is_target, is_kubernetes, is_connected}
use k8s_migration.Application as App
use k8s_migration.Application.{SourceApplication}
use k8s_migration.Assessment.Model.{Category, Assessment}
use k8s_migration.Assessment.Engine.{Context, Finding, Rule, new_engine, assess}
use k8s_migration.Assessment.Rules.{
  compute_requests, replica_availability, deprecated_api, target_api_availability,
}
use k8s_migration.Assessment.Dependencies.{required_dependency}
use k8s_migration.Assessment.Extended.{
  compose_unresolved_variables, raw_block_volume, rwx_storage, ingress_class, exposed_service,
  pod_security,
}
use k8s_migration.Assessment.Images.{image_reference, image_architecture}
use k8s_migration.Catalog.{
  Catalog, get_environment, get_application, get_assessment, create_assessment,
}

abbrev rule : String → Category → (Context → List Finding) → Rule
rule id category evaluate = record { id = id; category = category; evaluate = evaluate }

abbrev pub default_rules : List Rule
default_rules =
    rule "COMPUTE_RESOURCE_REQUESTS" Category.compute compute_requests
    ∷ rule "COMPUTE_SINGLE_REPLICA" Category.compute replica_availability
    ∷ rule "API_REMOVED_VERSION" Category.api deprecated_api
    ∷ rule "API_GROUP_UNAVAILABLE" Category.api target_api_availability
    ∷ rule "DEPENDENCY_REQUIRED_MISSING" Category.dependency required_dependency
    ∷ rule "STORAGE_RAW_BLOCK" Category.storage raw_block_volume
    ∷ rule "STORAGE_RWX_TARGET" Category.storage rwx_storage
    ∷ rule "NETWORK_INGRESS_CLASS" Category.network ingress_class
    ∷ rule "NETWORK_EXPOSED_SERVICE" Category.network exposed_service
    ∷ rule "SECURITY_HOST_ACCESS" Category.security pod_security
    ∷ rule "IMAGE_MUTABLE_REFERENCE" Category.image image_reference
    ∷ rule "IMAGE_ARCHITECTURE_UNVERIFIED" Category.image image_architecture
    ∷ rule "COMPOSE_UNRESOLVED_VARIABLES" Category.dependency compose_unresolved_variables
    ∷ []

-- The ids of the rules differ, so that the engine is made.
default_engine-ok : new_engine default_rules ≡ ok default_rules
unfolding new_engine trim_space
default_engine-ok = refl

-- `Capabilities{}`
abbrev pub no_capabilities : Capabilities
no_capabilities = record {
  kubernetes_version = "";
  architectures = [];
  operating_systems = [];
  node_count = 0;
  namespace_count = 0;
  storage_classes = [];
  csi_drivers = [];
  volume_snapshot_classes = [];
  volume_snapshot_class_details = [];
  csi_data_mover = record {
    snapshot_api = false;
    data_upload_api = false;
    data_download_api = false;
    backup_repository_api = false;
    enable_csi = false;
    node_agent_desired = 0;
    node_agent_ready = 0;
    backup_ready = false;
    restore_ready = false;
  };
  ingress_classes = [];
  api_groups = [];
  allocatable = [];
  runtime = [];
}

abbrev is_some : Option ℕ → Bool
is_some none = false
is_some (some _) = true

abbrev source_capabilities : Catalog → SourceApplication → Result Capabilities
source_capabilities c application =
    if App.is_kubernetes application.source_type && not (application.environment_id == 0)
    then (get_environment c application.environment_id >>= λ source. ok source.capabilities)
    else ok no_capabilities

-- `id` is the fresh UUID of the assessment, and `now` the time.
unfoldable pub create :
    (List Finding → List Finding)
    → (ℕ → String → ℕ)
    → List Rule
    → Catalog
    → ℕ
    → ℕ
    → ℕ
    → ℕ
    → Result (Catalog × Assessment)
create sort uuid_sha1 engine c id now application_id target_environment_id = do
  require (not (application_id == 0 || target_environment_id == 0))
      (invalid_input "applicationId and targetEnvironmentId are required")
  application ← get_application c application_id
  target ← get_environment c target_environment_id
  require (is_target target.role && is_kubernetes target.kind)
      (invalid_input "target environment must be a Kubernetes target")
  require (is_connected target.status && is_some target.capabilities_updated_at)
      (invalid_input "target environment capabilities must be connected and refreshed")
  source ← source_capabilities c application
  let result =
      assess sort uuid_sha1 engine id now
        (record { application = application; source = source; target = target.capabilities })
  stored ← create_assessment c result
  ok (stored, result)

unfoldable pub get : Catalog → ℕ → Result Assessment
get c id = do
  require (not (id == 0)) (invalid_input "assessmentId is required")
  get_assessment c id
