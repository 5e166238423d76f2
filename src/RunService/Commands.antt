-- ===== src/RunService/Commands.antt =====
-- internal/migration/run_service.go: the commands and the queries of `RunService`. The texts of
-- `ErrInvalidInput` are kept; a request names no run by the nil UUID.
use k8s_migration.Base.{
  ℕ, String, Bool, true, false, not, ◌||◌, Option, none, some, List, [], ◌∷◌, ◌==◌, Result, ok,
  invalid_input, invalid_run_state,
}
use k8s_migration.Base.Exec.{Exec, pure, raise, query, transact, execute, ◌>>=◌}
use k8s_migration.Migration.Model.{Plan, PlanStatus, Run, RunStatus, Step, no_code}
use k8s_migration.Migration.Transitions.{same_status, requires_rollback}
use k8s_migration.Migration.Schedule.{scheduled_steps}
use k8s_migration.Store.Tables.Rows.{Db, Event}
use k8s_migration.Store.Runs.Plans.{get_plan}
use k8s_migration.Store.Runs.Schedule.{schedule_run}
use k8s_migration.Store.Runs.Records.{delete_run, get_run, list_steps, list_events}
use k8s_migration.Store.Runs.Cancel.{cancel_run, restore_source}
use k8s_migration.Store.Runs.Cutover.{confirm_cutover}

-- What a request takes from outside: the program's time and the database's, the UUIDs that the
-- service and the repositories draw, and the capture of evidence, where one is configured.
pub record Env : Type 0 where
  pub clock : ℕ
  pub db_now : ℕ
  pub run_uuid : ℕ
  pub step_uuid : ℕ → ℕ
  pub store_uuid : ℕ → ℕ
  pub lease_uuid : ℕ
  pub capture_initial : Option (Db → ℕ → Result (Unit {0}))

pub record RunSnapshot : Type 0 where
  pub run : Run
  pub steps : List Step

-- An early return unless the test holds.
abbrev pub check : Bool → Exec Db Unit → Exec Db Unit
check true _ = pure tt
check false refuse = refuse

abbrev pub require_id : ℕ → String → Exec Db Unit
require_id id message = check (not (id == 0)) (raise (invalid_input message))

abbrev capture : Option (Db → ℕ → Result (Unit {0})) → ℕ → Exec Db Unit
capture none run = pure tt
capture (some f) run = query (λ db. f db run)

-- The run and its steps. The steps of the answer carry the id of the stored run.
unfoldable pub schedule : Env → Plan → Bool → Exec Db RunSnapshot
schedule env plan retry = do
  let run : Run = record {
    id = env.run_uuid;
    plan_id = plan.id;
    run_number = 0;
    status = RunStatus.pending;
    progress = 0;
    bytes_total = 0;
    bytes_transferred = 0;
    started_at = none;
    completed_at = none;
    error_code = no_code;
    error_message = "";
    created_at = env.clock;
    updated_at = env.clock;
    deleted_at = none;
  }
  let steps = scheduled_steps plan run.id env.clock env.step_uuid
  stored ←
      transact
        (λ db. schedule_run db env.clock env.db_now env.store_uuid env.lease_uuid run steps retry)
  capture env.capture_initial stored.id >>= λ _. (pure (record { run = stored; steps = steps }))

abbrev is_ready : PlanStatus → Bool
is_ready PlanStatus.ready = true
is_ready _ = false

unfoldable pub start : Env → ℕ → Exec Db RunSnapshot
unfolding schedule
start env plan_id = do
  require_id plan_id "planId is required" >>= λ _. (do
    plan ← query (λ db. get_plan db plan_id)
    check (is_ready plan.status) (raise invalid_run_state) >>= λ _. schedule env plan false)

-- `FAILED`, `CANCELLED` or `COMPLETED`
abbrev pub is_over : RunStatus → Bool
is_over s =
    same_status s RunStatus.failed
    || (same_status s RunStatus.cancelled || same_status s RunStatus.completed)

unfoldable pub retry_run : Env → ℕ → Exec Db RunSnapshot
unfolding schedule
retry_run env run_id = do
  require_id run_id "runId is required" >>= λ _. (do
    previous ← query (λ db. get_run db run_id)
    check (is_over previous.status) (raise invalid_run_state) >>= λ _. (do
      plan ← query (λ db. get_plan db previous.plan_id)
      schedule env plan true))

unfoldable pub get : ℕ → Exec Db RunSnapshot
get run_id = do
  require_id run_id "runId is required" >>= λ _. (do
    run ← query (λ db. get_run db run_id)
    steps ← query (λ db. ok (list_steps db run_id))
    pure (record { run = run; steps = steps }))

unfoldable pub restore : Env → ℕ → Exec Db RunSnapshot
unfolding get
restore env run_id = do
  require_id run_id "runId is required" >>= λ _.
      execute
        (λ db. restore_source db env.clock env.db_now (env.store_uuid 0) env.lease_uuid run_id)
      >>= λ _. get run_id

unfoldable pub cancel : Env → ℕ → Exec Db RunSnapshot
unfolding get
cancel env run_id = do
  require_id run_id "runId is required" >>= λ _.
      execute (λ db. cancel_run db env.clock env.db_now (env.store_uuid 0) env.lease_uuid run_id)
      >>= λ _. get run_id

unfoldable pub rollback : Env → ℕ → Exec Db RunSnapshot
unfolding get requires_rollback
rollback env run_id = do
  require_id run_id "runId is required" >>= λ _. (do
    run ← query (λ db. get_run db run_id)
    check (requires_rollback run.status) (raise invalid_run_state) >>= λ _.
        execute (λ db. cancel_run db env.clock env.db_now (env.store_uuid 0) env.lease_uuid run_id)
        >>= λ _. get run_id)

abbrev cutover_checklist : List String
cutover_checklist =
    "target validation passed" ∷ "external DNS/load balancer cutover completed"
    ∷ "source rollback window acknowledged" ∷ []

unfoldable pub confirm : Env → ℕ → ℕ → Exec Db Unit
confirm env run_id administrator_id = do
  check (not (run_id == 0 || administrator_id == 0))
        (raise (invalid_input "runId and administrator are required"))
      >>= λ _. execute (λ db.
        confirm_cutover db env.db_now (env.store_uuid 0) run_id administrator_id cutover_checklist)

unfoldable pub delete_by_id : Env → ℕ → Exec Db Unit
delete_by_id env run_id = execute (λ db. delete_run db env.db_now run_id)

-- A cursor is a number, and so is not negative.
unfoldable pub events : ℕ → ℕ → ℕ → Exec Db (List Event)
events run_id after limit = do
  require_id run_id "runId and non-negative event cursor are required" >>= λ _.
      query (λ db. list_events db run_id after limit)
