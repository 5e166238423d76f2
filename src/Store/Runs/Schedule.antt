-- ===== src/Store/Runs/Schedule.antt =====
-- internal/repository/postgres/migration.go: `ScheduleRun`.
use k8s_migration.Base.{
  ℕ, suc, ◌+◌, Bool, true, false, not, ◌&&◌, ◌||◌, none, List, [], ◌∷◌, ◌++◌, ◌==◌, ltb, ◌+++◌,
  decimal, if◌then◌else◌, any, Result, ok, err, not_found, conflict, failure, require, or_fail,
  ◌>>=◌, ◌>>◌,
}
use k8s_migration.Migration.Model.{PlanStatus, Run, RunStatus, Step, StepStatus, info}
use k8s_migration.Store.Tables.{find_plan, set_plan_status, insert_event, insert_lease, insert_step}
use k8s_migration.Store.Tables.Rows.{Db, text_value}

-- Whether a plan in a status may start a run, or start one again.
unfoldable pub is_schedulable : Bool → PlanStatus → Bool
is_schedulable retry PlanStatus.ready = true
is_schedulable true PlanStatus.running = true
is_schedulable true PlanStatus.failed = true
is_schedulable true PlanStatus.completed = true
is_schedulable retry _ = false

-- MAX(run_number) over the runs of a plan, and 0 where there is none.
abbrev pub last_number : ℕ → List Run → ℕ
last_number plan [] = 0
last_number plan (r ∷ rs) =
    let rest = last_number plan rs in
    if r.plan_id == plan && ltb rest r.run_number then r.run_number else rest

unfoldable pub next_number : ℕ → Db → ℕ
next_number plan db = last_number plan db.runs + 1

-- The constraints PRIMARY KEY (id) and UNIQUE (migration_plan_id, run_number) of `migration_runs`.
unfoldable pub insert_run : Run → Db → Result Db
insert_run new db = do
  require
      (not (
        any (λ r. r.id == new.id || (r.plan_id == new.plan_id && r.run_number == new.run_number))
          db.runs))
      conflict
  ok (record db { runs = db.runs ++ new ∷ [] })

-- The row of a scheduled step: a step is created a millisecond after the one before it.
unfoldable pub stored_step : ℕ → ℕ → (ℕ → ℕ) → ℕ → Step → Step
stored_step run now new_id index step = record step {
  id = if step.id == 0 then new_id index else step.id;
  run_id = run;
  attempt = 1;
  status = StepStatus.pending;
  progress = 0;
  started_at = none;
  completed_at = none;
  created_at = now + index;
  updated_at = now;
}

-- The loop over the steps. `new_id` gives the UUID of a step that comes without one.
unfoldable pub store_steps : ℕ → ℕ → (ℕ → ℕ) → ℕ → List Step → Db → Result Db
unfolding stored_step insert_step
store_steps run now new_id index [] db = ok db
store_steps run now new_id index (step ∷ steps) db =
    insert_step (stored_step run now new_id index step) db
    >>= store_steps run now new_id (suc index) steps

-- The first step is queued, and the plan runs.
unfoldable pub start_run : Run → ℕ → ℕ → ℕ → ℕ → Db → Result Db
unfolding insert_lease
start_run run now db_now lease first db = do
  queued ← insert_lease lease run.id first db_now db_now db
  ok (
      insert_event run.id "RUN_CREATED" info
        ("Migration run #" +++ decimal run.run_number +++ " was scheduled")
        (("status", text_value "PENDING") ∷ []) db_now
        (set_plan_status run.plan_id PlanStatus.running now queued))

-- `clock` is the program's time, `db_now` the database's.
unfoldable pub schedule_run : Db → ℕ → ℕ → (ℕ → ℕ) → ℕ → Run → List Step → Bool → Result (Db × Run)
unfolding is_schedulable next_number insert_run store_steps start_run
schedule_run db clock db_now new_id lease run [] retry =
    err (failure "run, plan and at least one step are required")
schedule_run db clock db_now new_id lease run (first ∷ rest) retry =
    if run.id == 0 || run.plan_id == 0
    then err (failure "run, plan and at least one step are required")
    else (do
      plan ← or_fail (find_plan run.plan_id db) not_found
      require (is_schedulable retry plan.status) conflict
      let now = if run.created_at == 0 then clock else run.created_at
      let created : Run = record run {
        run_number = next_number run.plan_id db;
        status = RunStatus.pending;
        progress = 0;
        created_at = now;
        updated_at = now;
      }
      inserted ←
          insert_run (record created { started_at = none; completed_at = none; deleted_at = none })
            db
      stored ← store_steps run.id now new_id 0 (first ∷ rest) inserted
      started ←
          start_run created now db_now lease (if first.id == 0 then new_id 0 else first.id) stored
      ok (started, created))
