-- ===== src/Store/Runs/Cancel.antt =====
-- internal/repository/postgres/migration.go: `CancelRun` and `RestoreSource`.
use k8s_migration.Base.{
  ℕ, ◌+◌, String, not, ◌&&◌, ◌||◌, none, some, [], ◌∷◌, ◌++◌, ◌==◌, if◌then◌else◌, update, delete,
  find, any, Result, ok, not_found, conflict, require, or_fail, ◌>>=◌, ◌>>◌,
}
use k8s_migration.Migration.Model.{
  PlanStatus, Run, RunStatus, Step, StepStatus, cancel_requested, source_restore_requested, warning,
}
use k8s_migration.Migration.Transitions.{same_status, is_allowed, is_terminal, requires_rollback}
use k8s_migration.Store.Tables.{
  is_open, find_run, update_run, set_plan_status, insert_event, new_lease,
}
use k8s_migration.Store.Tables.Rows.{Db, Lease}
use k8s_migration.Store.Jobs.Fail.{rollback_step}
use k8s_migration.Store.Runs.Records.{same_key}

-- DELETE FROM job_leases WHERE migration_run_id=$1
unfoldable pub drop_leases : ℕ → Db → Db
drop_leases run db = record db { leases = delete (λ l. l.run_id == run) db.leases }

-- UPDATE migration_steps SET status='SKIPPED',… AND status IN ('PENDING','RUNNING')
unfoldable pub skip_open : ℕ → ℕ → Db → Db
skip_open run now db = record db {
  steps =
      update (λ s. s.run_id == run && is_open s)
        (λ s. record s {
          status = StepStatus.skipped;
          completed_at = some now;
          summary = "cancelled by administrator";
          updated_at = now;
        })
        db.steps;
}

-- The rollback step of a run under a key, made pending if it is there: INSERT … ON CONFLICT DO
-- UPDATE, and the SELECT of its key.
unfoldable pub upsert_step : Step → (Step → Step) → Db → Db × ℕ
upsert_step new again db = elim (find (same_key new.run_id new.idempotency_key) db.steps) [
  | none ↦ (record db { steps = db.steps ++ new ∷ [] }, new.id)
  | some stored ↦ (
    record db { steps = update (same_key new.run_id new.idempotency_key) again db.steps },
    stored.id,
  )
]

-- INSERT INTO job_leases … ON CONFLICT (migration_run_id,step_id) DO UPDATE SET owner_id='',…
unfoldable pub upsert_lease : ℕ → ℕ → ℕ → ℕ → Db → Db
unfolding new_lease
upsert_lease id run step clock db =
    let same = λ (l : Lease). l.run_id == run && l.step_id == step in
    if any same db.leases
    then record db {
      leases =
          update same
            (λ l. record l {
              owner_id = "";
              lease_expires_at = none;
              heartbeat_at = none;
              available_at = clock;
              updated_at = clock;
            })
            db.leases;
    }
    else record db { leases = db.leases ++ new_lease id run step clock clock ∷ [] }

-- UPDATE migration_runs SET status='ROLLING_BACK',error_code='CANCEL_REQUESTED',…
unfoldable pub mark_cancelled : Run → ℕ → Db → Db
mark_cancelled run now db =
    update_run run.id
      (λ r. record r {
        status = RunStatus.rolling_back;
        error_code = cancel_requested;
        error_message = "Cancellation requested after source quiesce";
        updated_at = now;
      })
      db

-- DO UPDATE SET status='PENDING',updated_at=$3
unfoldable pub reopen : ℕ → Step → Step
reopen now s = record s { status = StepStatus.pending; updated_at = now }

-- After the source was stopped, a cancelled run is rolled back.
unfoldable pub cancel_with_rollback : Run → ℕ → ℕ → ℕ → ℕ → Db → Db
unfolding mark_cancelled reopen drop_leases skip_open upsert_step upsert_lease rollback_step
cancel_with_rollback run now clock fresh_step fresh_lease db =
    let skipped = skip_open run.id now (drop_leases run.id (mark_cancelled run now db)) in
    let stepped =
      upsert_step (rollback_step fresh_step run.id "rollback:v1" now) (reopen now) skipped in
    upsert_lease fresh_lease run.id stepped.1 clock stepped.0

-- Before that it ends at once, and its plan may run again.
unfoldable pub cancel_at_once : Run → ℕ → Db → Db
unfolding drop_leases skip_open
cancel_at_once run now db =
    let marked : Db =
      update_run run.id
        (λ r. record r {
          status = RunStatus.cancelled;
          completed_at = some now;
          error_code = cancel_requested;
          error_message = "Cancelled by administrator";
          updated_at = now;
        })
        db in
    set_plan_status run.plan_id PlanStatus.ready now
      (skip_open run.id now (drop_leases run.id marked))

-- The two ways, each behind its check against the transition table.
unfoldable pub cancel_steps : Run → ℕ → ℕ → ℕ → ℕ → Db → Result Db
unfolding is_allowed requires_rollback cancel_with_rollback cancel_at_once
cancel_steps run now clock fresh_step fresh_lease db =
    if requires_rollback run.status
    then (do
      require (is_allowed run.status RunStatus.rolling_back) conflict
      ok (cancel_with_rollback run now clock fresh_step fresh_lease db))
    else (do
      require (is_allowed run.status RunStatus.cancelled) conflict
      ok (cancel_at_once run now db))

abbrev cancel_message : RunStatus → String
cancel_message status =
    if requires_rollback status
    then "Migration cancellation requires source rollback"
    else "Migration run was cancelled before source quiesce"

-- `now` is the program's time, `clock` that of `clock_timestamp()`.
unfoldable pub cancel_run : Db → ℕ → ℕ → ℕ → ℕ → ℕ → Result Db
unfolding cancel_steps is_terminal
cancel_run db now clock fresh_step fresh_lease id = do
  run ← or_fail (find_run id db) not_found
  require (not (is_terminal run.status || same_status run.status RunStatus.rolling_back)) conflict
  cancelled ← cancel_steps run now clock fresh_step fresh_lease db
  ok (insert_event id "CANCEL_REQUESTED" warning (cancel_message run.status) [] clock cancelled)

-- A completed run is rolled back on request: the source is started again, the target is kept.
unfoldable pub restore_source : Db → ℕ → ℕ → ℕ → ℕ → ℕ → Result Db
unfolding is_allowed upsert_step upsert_lease rollback_step
restore_source db now clock fresh_step fresh_lease id = do
  run ← or_fail (find_run id db) not_found
  require (same_status run.status RunStatus.completed) conflict
  require (is_allowed run.status RunStatus.rolling_back) conflict
  let marked : Db =
      update_run id
        (λ r. record r {
          status = RunStatus.rolling_back;
          completed_at = none;
          error_code = source_restore_requested;
          error_message = "Source restoration requested after cutover";
          updated_at = now;
        })
        db
  let stepped =
      upsert_step (rollback_step fresh_step id "restore-source:v1" now)
        (λ s. record s {
          attempt = s.attempt + 1;
          status = StepStatus.pending;
          progress = 0;
          started_at = none;
          completed_at = none;
          summary = "";
          updated_at = now;
        })
        marked
  ok (
      insert_event id "SOURCE_RESTORE_REQUESTED" warning
        "Source restoration was requested after cutover; target resources are retained" [] clock
        (upsert_lease fresh_lease id stepped.1 clock stepped.0))
