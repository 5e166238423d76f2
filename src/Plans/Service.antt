-- ===== src/Plans/Service.antt =====
-- internal/migration/service.go: `Create`, `Get`, `List` and `Preflight` of the plan service.
use k8s_migration.Base.{
  ℕ, ◌+◌, Bool, false, not, ◌&&◌, none, some, List, [], ◌∷◌, ◌++◌, ◌==◌, str_ltb, trim_space,
  order_by, if◌then◌else◌, Result, ok, invalid_input, require, ◌>>=◌, ◌>>◌,
}
use k8s_migration.Environment.{Environment, is_source, is_target, is_kubernetes, is_docker_compose}
use k8s_migration.Application as App
use k8s_migration.Application.{SourceApplication}
use k8s_migration.Assessment.Model.{Assessment}
use k8s_migration.Mapping.Profile.{Profile}
use k8s_migration.Migration.Model.{Plan, PlanStatus}
use k8s_migration.Migration.Plan.{validate}
use k8s_migration.Catalog.{Catalog, get_environment, get_application, get_assessment, get_profile}
use k8s_migration.Store.Tables.Rows.{Db}
use k8s_migration.Store.Runs.Plans.{create_plan, get_plan, list_plans, update_plan_status}
use k8s_migration.Plans.Checks.{
  CheckStatus, PreflightCheck, connection_check, source_capability_checks, target_capability_checks,
  assessment_checks, storage_mapping_checks, registry_check,
}
use k8s_migration.Plans.Strategy.{strategy_checks}

pub record References : Type 0 where
  pub source : Environment
  pub target : Environment
  pub application : SourceApplication
  pub assessment : Assessment
  pub profile : Profile

-- A plan without a profile has one without mappings.
unfoldable pub resolve_mapping_profile : Catalog → Plan → Result Profile
unfolding get_profile
resolve_mapping_profile c plan = elim plan.mapping_profile_id [
  | none ↦ ok (record {
    id = 0;
    name = "自动目标配置";
    target_environment_id = plan.target_environment_id;
    storage = [];
    namespaces = [];
    ingress = [];
    registries = [];
    nfs = [];
    node_labels = [];
    created_at = 0;
    updated_at = 0;
  })
  | some id ↦ get_profile c id
]

unfoldable pub references : Catalog → Plan → Result References
unfolding resolve_mapping_profile
references c plan = do
  source ← get_environment c plan.source_environment_id
  target ← get_environment c plan.target_environment_id
  application ← get_application c plan.source_application_id
  assessment ← get_assessment c plan.assessment_id
  profile ← resolve_mapping_profile c plan
  ok (record {
    source = source;
    target = target;
    application = application;
    assessment = assessment;
    profile = profile;
  })

abbrev pub same : Bool → Bool → Bool
same a b = if a then b else not b

unfoldable pub validate_reference_values : References → Result (Unit {0})
validate_reference_values r = do
  require (is_source r.source.role && (is_target r.target.role && is_kubernetes r.target.kind))
      (invalid_input "source and target environment roles are invalid")
  require
      (r.application.environment_id == r.source.id
        && (r.assessment.application_id == r.application.id
            && r.profile.target_environment_id == r.target.id))
      (invalid_input
        "application, assessment or mapping does not belong to the selected environments")
  require (same (App.is_kubernetes r.application.source_type) (is_kubernetes r.source.kind))
      (invalid_input "application type does not match the source environment")
  require (same (App.is_compose r.application.source_type) (is_docker_compose r.source.kind))
      (invalid_input "application type does not match the source environment")

unfoldable pub validate_references : Catalog → Plan → Result (Unit {0})
unfolding references validate_reference_values
validate_references c plan = do found ← references c plan; validate_reference_values found

-- `id` is the fresh UUID and `now` the time.
unfoldable pub create : Catalog → Db → ℕ → ℕ → Plan → Result (Db × Plan)
unfolding validate_references
create c db id now value = do
  let draft = record value { id = id; name = trim_space value.name; status = PlanStatus.draft }
  validate draft
  validate_references c draft
  let stored = record draft { created_at = now; updated_at = now }
  created ← create_plan db stored
  ok (created, stored)

unfoldable pub get : Db → ℕ → Result Plan
get db id = do require (not (id == 0)) (invalid_input "planId is required"); get_plan db id

unfoldable pub list : Db → List Plan
list db = list_plans db

pub record PreflightResult : Type 0 where
  pub plan_id : ℕ
  pub ready : Bool
  pub blocker_count : ℕ
  pub warning_count : ℕ
  pub checks : List PreflightCheck

unfoldable pub checks_of : Plan → References → List PreflightCheck
unfolding connection_check source_capability_checks target_capability_checks assessment_checks
    strategy_checks storage_mapping_checks registry_check
checks_of plan r =
    connection_check "source.connection" "SOURCE" "源环境连接" r.source
    ∷ connection_check "target.connection" "TARGET" "目标 SKS 连接" r.target
    ∷ (source_capability_checks r.source
        ++ (target_capability_checks r.target
            ++ (assessment_checks r.assessment
                ++ (strategy_checks plan r.source r.target r.application
                    ++ (storage_mapping_checks r.application r.target r.profile
                        ++ registry_check r.application r.profile ∷ [])))))

-- A stable sort by the ids.
abbrev pub sort_checks : List PreflightCheck → List PreflightCheck
sort_checks checks = order_by (λ a b. not (str_ltb b.id a.id)) checks

abbrev pub count_check : CheckStatus → PreflightResult → PreflightResult
count_check CheckStatus.blocker r = record r { blocker_count = r.blocker_count + 1 }
count_check CheckStatus.warning r = record r { warning_count = r.warning_count + 1 }
count_check CheckStatus.passed r = r

abbrev pub count_checks : List PreflightCheck → PreflightResult → PreflightResult
count_checks [] r = r
count_checks (c ∷ cs) r = count_checks cs (count_check c.status r)

unfoldable pub result_of : ℕ → List PreflightCheck → PreflightResult
unfolding str_ltb
result_of id checks =
    let sorted = sort_checks checks in
    let counted = count_checks sorted (record {
      plan_id = id;
      ready = false;
      blocker_count = 0;
      warning_count = 0;
      checks = sorted;
    }) in
    record counted { ready = counted.blocker_count == 0 }

unfoldable pub preflight : Catalog → Db → ℕ → ℕ → Result (Db × PreflightResult)
unfolding references validate_reference_values checks_of result_of
preflight c db now id = do
  require (not (id == 0)) (invalid_input "planId is required")
  plan ← get_plan db id
  found ← references c plan
  validate_reference_values found
  let result = result_of id (checks_of plan found)
  updated ←
      update_plan_status db now id (if result.ready then PlanStatus.ready else PlanStatus.blocked)
  ok (updated, result)
