-- ===== src/Examples/PlanExamples.antt =====
-- Runs of the theorems on plans and their preflight checks.
use k8s_migration.Base.{
  str_ltb, has_prefix, equal_fold, before_char, contains_text, lower_contains, join, sort_strings,
  trim_space, last_index, text_from, some, refl, [], ◌∷◌, ◌≡◌, ◌&&◌, Ensures, is_ok, true,
}
use k8s_migration.Environment.{
  Role, snapshot_driver_for_storage_class, supports_raw_block_data_mover,
}
use k8s_migration.Assessment.Engine.{
  assess, finding_key, add_finding, add_findings, count_severity, resource_ref,
}
use k8s_migration.Assessment.Rules.{
  target_api_availability, deprecated_api, compute_requests, replica_availability,
}
use k8s_migration.Assessment.Dependencies.{
  required_dependency, add_target, compact_strings, group_missing, known_keys, ref_key,
}
use k8s_migration.Assessment.Extended.{
  compose_unresolved_variables, exposed_service, ingress_class, pod_security, raw_block_volume,
  rwx_storage, block_finding, block_path,
}
use k8s_migration.Assessment.Images.{image_architecture, image_reference, image_has_mutable_tag}
use k8s_migration.Assessment.Model.{Assessment, Status}
use k8s_migration.Migration.Model.{Plan, PlanStatus, VolumeMode}
use k8s_migration.Mapping.Profile.{Profile}
use k8s_migration.Catalog.{Catalog, get_environment, get_application, get_assessment}
use k8s_migration.Migration.Plan.{validate}
use k8s_migration.Store.Runs.Plans.{create_plan}
use k8s_migration.Store.Tables.Rows.{Db}
use k8s_migration.Plans.Strategy.{has_raw_block, is_valid_mode, has_snapshot_driver}
use k8s_migration.Plans.Service.{References, create, preflight}
use k8s_migration.Plans.Gate.{all_volumes, strategy_ready}
use k8s_migration.Plans.Decision.{Decided, preflight-Decided}
use k8s_migration.Plans.Created.{IsCreated, create-IsCreated}
use k8s_migration.Plans.BlockVolumes.{assess-strategy_ready}
use k8s_migration.Examples.Rows.{sample_db, sample_plan, sample_strategy}
use k8s_migration.Examples.Sources.{cluster, sample_application}

abbrev sample_assessment : Assessment
sample_assessment = record {
  id = 34;
  application_id = 33;
  score = 78;
  blocker_count = 0;
  warning_count = 2;
  info_count = 1;
  status = Status.completed;
  issues = [];
  created_at = 6;
  completed_at = some 6;
}

abbrev sample_catalog : Catalog
sample_catalog = record {
  environments = cluster 31 Role.source ∷ cluster 32 Role.target ∷ [];
  applications = sample_application ∷ [];
  profiles = [];
  assessments = sample_assessment ∷ [];
  issues = [];
}

abbrev mover_plan : Plan
mover_plan = record sample_plan {
  strategy = record sample_strategy {
    resource_mode = "TRANSFORM";
    volume_mode = VolumeMode.csi_data_mover;
  };
  status = PlanStatus.draft;
}

abbrev draft_db : Db
draft_db = record sample_db { plans = mover_plan ∷ []; runs = []; steps = []; leases = [] }

abbrev sample_profile : Profile
sample_profile = record {
  id = 0;
  name = "";
  target_environment_id = 32;
  storage = [];
  namespaces = [];
  ingress = [];
  registries = [];
  nfs = [];
  node_labels = [];
  created_at = 0;
  updated_at = 0;
}

abbrev sample_references : References
sample_references = record {
  source = cluster 31 Role.source;
  target = cluster 32 Role.target;
  application = sample_application;
  assessment = sample_assessment;
  profile = sample_profile;
}

preflight-Decided_example :
    Ensures (Decided sample_catalog draft_db 3) (preflight sample_catalog draft_db 70 3)
preflight-Decided_example = preflight-Decided sample_catalog draft_db 70 3 (tt, tt)

-- The plan is created, not refused.
is_created : is_ok (create sample_catalog draft_db 8 70 mover_plan) ≡ true
unfolding create validate trim_space get_environment get_application get_assessment create_plan
is_created = refl

create-IsCreated_example :
    Ensures (IsCreated sample_catalog 8) (create sample_catalog draft_db 8 70 mover_plan)
create-IsCreated_example = create-IsCreated sample_catalog draft_db 8 70 mover_plan refl

assess-strategy_ready_example : strategy_ready mover_plan sample_references ≡ (
    is_valid_mode sample_references.application mover_plan.strategy.volume_mode
    && all_volumes
        (has_snapshot_driver sample_references.source)
        sample_references.application.inventory.pvcs)
unfolding has_raw_block assess finding_key add_finding add_findings count_severity resource_ref
    target_api_availability deprecated_api compute_requests replica_availability required_dependency
    add_target compact_strings group_missing known_keys ref_key compose_unresolved_variables
    exposed_service ingress_class pod_security raw_block_volume rwx_storage block_finding block_path
    image_architecture image_reference image_has_mutable_tag str_ltb has_prefix equal_fold
    before_char contains_text lower_contains join sort_strings last_index text_from
    snapshot_driver_for_storage_class supports_raw_block_data_mover
assess-strategy_ready_example =
    assess-strategy_ready (λ fs. fs) (λ id key. id) 34 60 mover_plan sample_references
      (λ p fs. refl) refl refl refl
