-- ===== src/Examples/Sources.antt =====
-- An application with a block volume, and two clusters that can move it.
use k8s_migration.Base.{ℕ, true, none, some, [], ◌∷◌}
use k8s_migration.Environment.{
  Environment, Role, Kind, Status, Capabilities, CsiDataMoverCapabilities,
}
use k8s_migration.Application.{
  SourceApplication, SourceType, Inventory, VolumeSummary, ImageSummary,
}
use k8s_migration.Assessment.Engine.{Context}
use k8s_migration.Assessment.Service.{no_capabilities}

abbrev ready_mover : CsiDataMoverCapabilities
ready_mover = record no_capabilities.csi_data_mover { backup_ready = true; restore_ready = true }

abbrev pub cluster_capabilities : Capabilities
cluster_capabilities = record no_capabilities {
  operating_systems = "linux" ∷ [];
  storage_classes =
      (record {
        name = "block";
        provisioner = "com.smartx.elf-csi-driver";
        default = true;
        allow_expansion = true;
        volume_binding_mode = "Immediate";
      })
      ∷ [];
  volume_snapshot_class_details =
      (record {
        name = "snapshots";
        driver = "com.smartx.elf-csi-driver";
        deletion_policy = "Delete";
      })
      ∷ [];
  csi_data_mover = ready_mover;
  api_groups = "v1" ∷ "apps" ∷ [];
}

abbrev pub cluster : ℕ → Role → Environment
cluster id role = record {
  id = id;
  name = "cluster";
  role = role;
  kind = Kind.kubernetes;
  endpoint = "";
  credential_id = none;
  status = Status.connected;
  status_message = "";
  capabilities = cluster_capabilities;
  capabilities_updated_at = some 5;
  created_at = 1;
  updated_at = 5;
}

abbrev block_volume : VolumeSummary
block_volume = record {
  name = "data";
  namespace = "shop";
  capacity_bytes = 1024;
  storage_class_name = "block";
  access_modes = "ReadWriteOnce" ∷ [];
  volume_mode = "Block";
  source = "";
  phase = "Bound";
}

abbrev sample_image : ImageSummary
sample_image = record { reference = "registry.local/shop:latest"; digest = ""; architectures = [] }

abbrev sample_inventory : Inventory
sample_inventory = record {
  resources = [];
  workloads = [];
  services = [];
  ingresses = [];
  config_maps = [];
  secrets = [];
  service_accounts = [];
  roles = [];
  role_bindings = [];
  crds = [];
  custom_resources = [];
  pvcs = block_volume ∷ [];
  images = sample_image ∷ [];
  dependencies = [];
  warnings = [];
  counts = [];
  compose = none;
}

abbrev pub sample_application : SourceApplication
sample_application = record {
  id = 33;
  environment_id = 31;
  name = "shop";
  source_type = SourceType.kubernetes;
  namespace = "shop";
  inventory = sample_inventory;
  definition_credential_id = none;
  created_at = 2;
  updated_at = 2;
}

abbrev pub sample_context : Context
sample_context = record {
  application = sample_application;
  source = cluster_capabilities;
  target = cluster_capabilities;
}
