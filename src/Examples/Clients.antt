-- ===== src/Examples/Clients.antt =====
-- A cluster for the theorems on the executor: the replicas of all workloads, and whether staging pods
-- run. Its clients do as little as they can.
use mathlib.Core.Path.{subst}
use k8s_migration.Base.{
  ℕ, ◌≡◌, refl, ap, String, Bool, true, false, some, none, List, [], ◌∷◌, any, All, if◌then◌else◌,
  ◌⊎◌, inl, inr, ok, err, not_found, Result, arith, Bool-cases,
}
use k8s_migration.Environment.{Environment, Role}
use k8s_migration.Catalog.{Catalog}
use k8s_migration.Assessment.Service.{no_capabilities}
use k8s_migration.Execution.Clients.{
  VeleroClient, KubernetesClient, BackupStatus, RestoreStatus, ScalableWorkload,
}
use k8s_migration.Execution.State.{VeleroExecutor, State}
use k8s_migration.Execution.Recorded.{is_workload, Sized}
use k8s_migration.Execution.Scaling.{ScalingLaws}
use k8s_migration.Execution.Cleanup.{StagingLaws}
use k8s_migration.Execution.Context.{ExecutionContext}
use k8s_migration.Examples.Rows.{sample_db, sample_run, sample_plan}
use k8s_migration.Examples.Sources.{cluster, sample_application}

pub record Cluster : Type 0 where
  pub replicas : String → String → String → ℕ
  pub staged : Bool

abbrev scale : List ScalableWorkload → Cluster → Cluster
scale [] w = w
scale (x ∷ xs) w = scale xs (record w {
  replicas = λ namespace kind name.
      if is_workload namespace kind name x then x.replicas else w.replicas namespace kind name;
})

abbrev web : Cluster → ScalableWorkload
web w = record {
  namespace = "shop";
  kind = "Deployment";
  name = "web";
  replicas = w.replicas "shop" "Deployment" "web";
}

abbrev pub sample_client : KubernetesClient Cluster
sample_client = record {
  prepare_pvc_staging = λ _ _ w. (ok tt, record w { staged = true });
  delete_pvc_staging = λ _ _ _ w. (ok tt, record w { staged = false });
  list_scalable_workloads = λ _ _ w. ok (web w ∷ []);
  scale_workloads = λ _ ws w. (ok tt, scale ws w);
  ensure_storage_class_mappings = λ _ _ _ _ w. (ok tt, w);
  delete_storage_class_mappings = λ _ _ _ w. (ok tt, w);
  apply_post_restore_mappings =
      λ _ _ _ w. (ok (record { examined = 0; updated = 0; verified = 0 }), w);
  ensure_migration_namespace = λ _ _ w. (ok tt, w);
  validate_namespace = λ _ _ _. (
    record {
      deployments = 1;
      stateful_sets = 0;
      pvcs = 1;
      services = 0;
      ingresses = 0;
      results = [];
    },
    ok tt,
  );
  validate_endpoints = λ _ _ w. (ok tt, w);
  csi_data_mover_capabilities = λ _ _ _. ok no_capabilities.csi_data_mover;
  label_resources = none;
}

abbrev pub status_at : String → BackupStatus
status_at phase = record {
  name = "";
  phase = phase;
  message = "";
  warnings = 0;
  errors = 0;
  items_backed_up = 0;
  total_items = 0;
}

abbrev restored_at : String → RestoreStatus
restored_at phase = record {
  name = "";
  phase = phase;
  message = "";
  warnings = 0;
  errors = 0;
  items_restored = 0;
  total_items = 0;
}

-- Each backup and each new restore is in the phase.
abbrev pub velero_at : String → VeleroClient Cluster
velero_at phase = record {
  storage_location_status = λ _ _ _ _. err not_found;
  create_backup = λ _ _ w. (ok (status_at phase), w);
  backup_status = λ _ _ _ _. ok (status_at phase);
  volume_transfers = λ _ _ _ _. ok [];
  data_uploads = λ _ _ _ _. ok [];
  data_downloads = λ _ _ _ _. ok [];
  create_restore = λ _ _ w. (ok (restored_at phase), w);
  restore_status = λ _ _ _ _. err not_found;
}

abbrev with_credential : Environment → ℕ → Environment
with_credential e credential = record e { credential_id = some credential }

abbrev execution_catalog : Catalog
execution_catalog = record {
  environments =
      with_credential (cluster 31 Role.source) 51
      ∷ with_credential (cluster 32 Role.target) 52
      ∷ [];
  applications = sample_application ∷ [];
  profiles = [];
  assessments = [];
  issues = [];
}

abbrev pub executor_at : String → VeleroExecutor Cluster
executor_at phase = record {
  catalog = execution_catalog;
  vault = λ id. ok (id ∷ []);
  velero = velero_at phase;
  kubernetes = some sample_client;
  staging_image = "busybox@sha256:0f";
  uuid_text = λ _. "00000000-0000-0000-0000-000000000005";
  now = 30;
  fresh = λ n. n;
}

abbrev pub running_state : State Cluster
running_state = record {
  db = sample_db;
  snapshots = [];
  transfers = [];
  clusters = record { replicas = λ _ _ _. 3; staged = false };
}

next_coming :
    (namespace kind name : String) (n : ℕ) (x : ScalableWorkload) (ws : List ScalableWorkload)
    (w : Cluster)
    → (any (is_workload namespace kind name) (x ∷ ws) ≡ true) ⊎ (w.replicas namespace kind name ≡ n)
    → Sized namespace kind name n x
    → (any (is_workload namespace kind name) ws ≡ true)
      ⊎ ((scale (x ∷ []) w).replicas namespace kind name ≡ n)
next_coming namespace kind name n x ws w coming sized =
    elim (Bool-cases (is_workload namespace kind name x)) [
      | inl hit ↦ inr (rw hit (sized hit))
      | inr miss ↦ elim coming [ inl there ↦ inl (rw miss at there) | inr e ↦ inr (rw miss e) ]
    ]

pub scale-replicas :
    (namespace kind name : String) (n : ℕ) (ws : List ScalableWorkload) (w : Cluster)
    → (any (is_workload namespace kind name) ws ≡ true) ⊎ (w.replicas namespace kind name ≡ n)
    → All (Sized namespace kind name n) ws
    → (scale ws w).replicas namespace kind name ≡ n
scale-replicas namespace kind name n [] w (inl there) sized = absurd (ground arith)
scale-replicas namespace kind name n [] w (inr e) sized = e
scale-replicas namespace kind name n (x ∷ ws) w coming sized =
    scale-replicas namespace kind name n ws (scale (x ∷ []) w)
      (next_coming namespace kind name n x ws w coming sized.0) sized.1

pub listed_once :
    (w : Cluster) (ws : List ScalableWorkload)
    → ◌≡◌ {A = Result (List ScalableWorkload)} (ok (web w ∷ [])) (ok ws)
    → All (λ x. some (w.replicas x.namespace x.kind x.name) ≡ some x.replicas) ws
listed_once w ws e =
    let same : web w ∷ [] ≡ ws = cc in
    subst (λ v. All (λ x. some (w.replicas x.namespace x.kind x.name) ≡ some x.replicas) v) same
      (refl, tt)

abbrev pub sample_scaling : ScalingLaws sample_client
sample_scaling = record {
  replicas = λ _ namespace kind name w. some (w.replicas namespace kind name);
  listed = λ kube namespace w ws e. listed_once w ws e;
  scaled = λ kube ws w namespace kind name n e there sized.
      ap some (scale-replicas namespace kind name n ws w (inl there) sized);
  unstaged = λ _ _ _ _ _ _ _ _. refl;
}

abbrev pub sample_staging : StagingLaws sample_client
sample_staging = record { staged = λ _ _ _ w. w.staged; deleted = λ _ _ _ _ _. refl }

abbrev pub sample_execution : ExecutionContext
sample_execution = record {
  run = sample_run;
  plan = sample_plan;
  application = sample_application;
  source = with_credential (cluster 31 Role.source) 51;
  target = with_credential (cluster 32 Role.target) 52;
  mapping = record {
    id = 0;
    name = "自动目标配置";
    target_environment_id = 32;
    storage = [];
    namespaces = [];
    ingress = [];
    registries = [];
    nfs = [];
    node_labels = [];
    created_at = 0;
    updated_at = 0;
  };
  source_kube = 51 ∷ [];
  target_kube = 52 ∷ [];
}
