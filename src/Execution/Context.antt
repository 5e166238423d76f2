-- ===== src/Execution/Context.antt =====
-- internal/migration/velero_executor.go: `resolve`, which reads what a step needs, and the names of
-- backups. The copies of the kubeconfigs are wiped when a step ends, which nothing reads.
use Prim.Native.Char.{code}
use k8s_migration.Base.{
  ℕ, zero, suc, String, Bool, not, ◌&&◌, ◌==◌, str_eq, ◌+++◌, any, if◌then◌else◌, Result, ok,
  require, or_fail, ◌>>=◌, ◌>>◌,
}
use k8s_migration.Security.Crypto.{Bytes}
use k8s_migration.Environment.{Environment}
use k8s_migration.Application.{SourceApplication, Inventory, is_kubernetes}
use k8s_migration.Mapping.Profile.{Profile}
use k8s_migration.Migration.Model.{Plan, Run}
use k8s_migration.Catalog.{get_environment, get_application}
use k8s_migration.Store.Tables.Rows.{Db}
use k8s_migration.Store.Runs.Plans.{get_plan}
use k8s_migration.Store.Runs.Records.{get_run}
use k8s_migration.Plans.Service.{resolve_mapping_profile}
use k8s_migration.Execution.State.{VeleroExecutor, unsupported}

pub record ExecutionContext : Type 0 where
  pub run : Run
  pub plan : Plan
  pub application : SourceApplication
  pub source : Environment
  pub target : Environment
  pub mapping : Profile
  pub source_kube : Bytes
  pub target_kube : Bytes

module _ {W : Type 0} where
  unfoldable pub resolve : VeleroExecutor W → Db → ℕ → Result ExecutionContext
  unfolding get_run get_plan get_application get_environment resolve_mapping_profile
  resolve e db run_id = do
    run ← get_run db run_id
    plan ← get_plan db run.plan_id
    application ← get_application e.catalog plan.source_application_id
    require (is_kubernetes application.source_type && not (str_eq application.namespace ""))
        (unsupported "Velero requires a Kubernetes Namespace source")
    source ← get_environment e.catalog plan.source_environment_id
    target ← get_environment e.catalog plan.target_environment_id
    mapping ← resolve_mapping_profile e.catalog plan
    let missing = unsupported "source and target kubeconfig are required"
    source_credential ← or_fail source.credential_id missing
    target_credential ← or_fail target.credential_id missing
    source_kube ← e.vault source_credential
    target_kube ← e.vault target_credential
    ok (record {
      run = run;
      plan = plan;
      application = application;
      source = source;
      target = target;
      mapping = mapping;
      source_kube = source_kube;
      target_kube = target_kube;
    })

without_dashes : String → String
without_dashes String.[] = String.[]
without_dashes (String.◌∷◌ c s) =
    let rest = without_dashes s in if code c == b'-' then rest else String.◌∷◌ c rest

text_take : ℕ → String → String
text_take zero s = String.[]
text_take (suc n) String.[] = String.[]
text_take (suc n) (String.◌∷◌ c s) = String.◌∷◌ c (text_take n s)

-- The text of a UUID has more than 12 digits.
unfoldable pub backup_name : (ℕ → String) → ℕ → String → String
unfolding without_dashes text_take
backup_name uuid_text run stage =
    "migration-" +++ (text_take 12 (without_dashes (uuid_text run)) +++ ("-" +++ stage))

unfoldable pub restore_name : (ℕ → String) → ℕ → String
unfolding backup_name
restore_name uuid_text run = backup_name uuid_text run "restore"

abbrev pub manual_resource_selection : Inventory → Bool
manual_resource_selection inventory =
    any (λ w. str_eq w.code "MANUAL_RESOURCE_SELECTION") inventory.warnings
