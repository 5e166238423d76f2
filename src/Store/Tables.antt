-- ===== src/Store/Tables.antt =====
-- The tables that a migration reads and writes (internal/database/migrations/*.sql), and the
-- statements that several operations of internal/repository/postgres make. A table is the list of
-- its rows, the oldest first. A fresh UUID and the time are arguments of an operation.
pub mod Rows
pub mod Laws
use k8s_migration.Base.{
  ℕ, ◌+◌, ◌*◌, ◌/◌, String, Bool, true, false, not, ◌&&◌, ◌||◌, Option, none, some, List, [], ◌∷◌,
  ◌++◌, ◌==◌, ltb, leb, str_eq, if◌then◌else◌, length, select, update, find, any, Result, ok,
  failure, require, ◌>>=◌, ◌>>◌,
}
use k8s_migration.Migration.Model.{Plan, PlanStatus, Run, Step, StepStatus, EventSeverity}
use Rows.{Lease, Attempt, Value, Event, Db}

-- Statuses of a step. The number of a status stands for its text.
abbrev pub step_number : StepStatus → ℕ
step_number StepStatus.pending = 0
step_number StepStatus.running = 1
step_number StepStatus.succeeded = 2
step_number StepStatus.failed = 3
step_number StepStatus.skipped = 4

abbrev pub has_status : StepStatus → Step → Bool
has_status st s = step_number s.status == step_number st

-- `status IN ('PENDING','RUNNING')`
abbrev pub is_open : Step → Bool
is_open s = has_status StepStatus.pending s || has_status StepStatus.running s

-- `status IN ('SUCCEEDED','SKIPPED')`
abbrev pub is_done : Step → Bool
is_done s = has_status StepStatus.succeeded s || has_status StepStatus.skipped s

-- COALESCE(column, value)
abbrev pub coalesce : Option ℕ → ℕ → Option ℕ
coalesce none v = some v
coalesce (some t) v = some t

-- SELECT … WHERE id=$1
abbrev pub find_run : ℕ → Db → Option Run
find_run id db = find (λ r. r.id == id) db.runs

abbrev pub find_plan : ℕ → Db → Option Plan
find_plan id db = find (λ p. p.id == id) db.plans

abbrev pub find_step : ℕ → Db → Option Step
find_step id db = find (λ s. s.id == id) db.steps

-- WHERE migration_run_id=$1
abbrev pub steps_of : ℕ → Db → List Step
steps_of id db = select (λ s. s.run_id == id) db.steps

abbrev pub leases_of : ℕ → Db → List Lease
leases_of id db = select (λ l. l.run_id == id) db.leases

-- UPDATE … WHERE id=$1
abbrev pub update_run : ℕ → (Run → Run) → Db → Db
update_run id f db = record db { runs = update (λ r. r.id == id) f db.runs }

abbrev pub update_plan : ℕ → (Plan → Plan) → Db → Db
update_plan id f db = record db { plans = update (λ p. p.id == id) f db.plans }

abbrev pub update_step : ℕ → (Step → Step) → Db → Db
update_step id f db = record db { steps = update (λ s. s.id == id) f db.steps }

-- UPDATE migration_plans SET status=$2,updated_at=now() WHERE id=$1
abbrev pub set_plan_status : ℕ → PlanStatus → ℕ → Db → Db
set_plan_status id st now db = update_plan id (λ p. record p { status = st; updated_at = now }) db

-- UPDATE migration_step_attempts … WHERE step_id=$1 AND attempt=$2
abbrev pub update_attempt : ℕ → ℕ → (Attempt → Attempt) → Db → Db
update_attempt step attempt f db = record db {
  attempts = update (λ a. a.step_id == step && a.attempt == attempt) f db.attempts;
}

-- INSERT INTO migration_events
abbrev pub insert_event : ℕ → String → EventSeverity → String → List (String × Value) → ℕ → Db → Db
insert_event run type severity message detail now db = record db {
  events =
      db.events
      ++ (let event : Event = record {
        id = db.next_event;
        run_id = run;
        type = type;
        severity = severity;
        message = message;
        detail = detail;
        created_at = now;
      } in
          event ∷ []);
  next_event = db.next_event + 1;
}

-- The constraints PRIMARY KEY (id) and UNIQUE (migration_run_id, step_id) of `job_leases`.
abbrev pub lease_taken : ℕ → ℕ → ℕ → Db → Bool
lease_taken id run step db =
    any (λ l. l.id == id || (l.run_id == run && l.step_id == step)) db.leases

-- INSERT INTO job_leases (id,migration_run_id,step_id,available_at)
unfoldable pub new_lease : ℕ → ℕ → ℕ → ℕ → ℕ → Lease
new_lease id run step available now = record {
  id = id;
  run_id = run;
  step_id = step;
  owner_id = "";
  lease_expires_at = none;
  heartbeat_at = none;
  attempt = 0;
  available_at = available;
  created_at = now;
  updated_at = now;
}

unfoldable pub insert_lease : ℕ → ℕ → ℕ → ℕ → ℕ → Db → Result Db
unfolding new_lease
insert_lease id run step available now db = do
  require (not (lease_taken id run step db)) (failure "duplicate key in job_leases")
  ok (record db { leases = db.leases ++ new_lease id run step available now ∷ [] })

-- The constraints PRIMARY KEY (id) and UNIQUE (migration_run_id, idempotency_key) of
-- `migration_steps`.
abbrev pub step_taken : Step → Db → Bool
step_taken new db =
    any
      (λ s.
        s.id == new.id || (s.run_id == new.run_id && str_eq s.idempotency_key new.idempotency_key))
      db.steps

-- INSERT INTO migration_steps
unfoldable pub insert_step : Step → Db → Result Db
insert_step new db = do
  require (not (step_taken new db)) (failure "duplicate key in migration_steps")
  ok (record db { steps = db.steps ++ new ∷ [] })

-- COUNT(*) FILTER (WHERE status IN ('SUCCEEDED','SKIPPED'))*100/COUNT(*)
unfoldable pub percent_done : List Step → ℕ
percent_done steps = length (select is_done steps) * 100 / length steps

-- UPDATE migration_runs SET progress=(…). PostgreSQL refuses the division by a count of 0.
unfoldable pub update_progress : ℕ → ℕ → Db → Result Db
unfolding percent_done
update_progress run now db =
    let steps = steps_of run db in
    do
      require (not (length steps == 0)) (failure "division by zero")
      ok (update_run run (λ r. record r { progress = percent_done steps; updated_at = now }) db)

-- ORDER BY created_at,id
abbrev pub earlier_step : Step → Step → Bool
earlier_step a b = ltb a.created_at b.created_at || (a.created_at == b.created_at && leb a.id b.id)

-- ORDER BY … LIMIT 1: the first row in an order.
abbrev pub first_by {ℓ} : {A : Type ℓ} → (A → A → Bool) → List A → Option A
first_by before [] = none
first_by before (x ∷ xs) = elim (first_by before xs) [
  | none ↦ some x
  | some y ↦ (if before x y then some x else some y)
]

-- SELECT id,type FROM migration_steps WHERE migration_run_id=$1 AND status='PENDING' ORDER BY
-- created_at,id LIMIT 1
unfoldable pub next_pending : ℕ → Db → Option Step
next_pending run db =
    first_by earlier_step (select (λ s. has_status StepStatus.pending s) (steps_of run db))
