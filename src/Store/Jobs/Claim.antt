-- ===== src/Store/Jobs/Claim.antt =====
-- internal/repository/postgres/jobs.go: `Claim`.
use k8s_migration.Base.{
  ℕ, ◌+◌, String, Bool, true, false, not, ◌&&◌, ◌||◌, Option, none, some, List, [], ◌∷◌, ◌++◌, ◌==◌,
  ltb, leb, str_eq, ◌+++◌, if◌then◌else◌, update, any, Result, ok, err, failure, or_fail, ◌>>=◌,
  ◌>>◌,
}
use k8s_migration.Migration.Model.{Run, RunStatus, Step, StepStatus, info}
use k8s_migration.Migration.Transitions.{same_status, status_for_step, validate_transition}
use k8s_migration.Migration.Texts.{type_text}
use k8s_migration.Store.Tables.{
  is_open, coalesce, find_run, find_step, update_run, update_step, insert_event, first_by,
}
use k8s_migration.Store.Tables.Rows.{
  Lease, Attempt, AttemptStatus, Db, Claimed, id_value, int_value, type_value,
}

-- `lease_expires_at IS NULL OR lease_expires_at < now()`
abbrev pub is_free : ℕ → Lease → Bool
is_free now l = elim l.lease_expires_at [ none ↦ true | some t ↦ ltb t now ]

-- JOIN migration_steps s ON s.id = j.step_id … AND s.status IN ('PENDING','RUNNING')
abbrev pub has_open_step : Db → Lease → Bool
has_open_step db l = elim (find_step l.step_id db) [ none ↦ false | some s ↦ is_open s ]

-- The WHERE clause. `locked` tells the rows that other transactions hold, which SKIP LOCKED passes.
abbrev pub is_claimable : Db → ℕ → (ℕ → Bool) → Lease → Bool
is_claimable db now locked l =
    leb l.available_at now && (is_free now l && (has_open_step db l && not (locked l.id)))

-- ORDER BY j.available_at, j.created_at, j.id
abbrev pub earlier_job : Lease → Lease → Bool
earlier_job a b =
    ltb a.available_at b.available_at
    || (a.available_at == b.available_at
        && (ltb a.created_at b.created_at || (a.created_at == b.created_at && leb a.id b.id)))

abbrev pub claimable : Db → ℕ → (ℕ → Bool) → List Lease → List Lease
claimable db now locked [] = []
claimable db now locked (l ∷ ls) =
    if is_claimable db now locked l
    then l ∷ claimable db now locked ls
    else claimable db now locked ls

unfoldable pub next_job : Db → ℕ → (ℕ → Bool) → Option Lease
next_job db now locked = first_by earlier_job (claimable db now locked db.leases)

-- UPDATE job_leases SET owner_id=$2,…,attempt=attempt+1 … WHERE id=$1
unfoldable pub take_lease : ℕ → ℕ → String → ℕ → Db → Db
take_lease lease now owner expires db = record db {
  leases =
      update (λ l. l.id == lease)
        (λ l. record l {
          owner_id = owner;
          lease_expires_at = some expires;
          heartbeat_at = some now;
          attempt = l.attempt + 1;
          updated_at = now;
        })
        db.leases;
}

-- INSERT INTO migration_step_attempts … ON CONFLICT (step_id,attempt) DO UPDATE
unfoldable pub start_attempt : ℕ → ℕ → ℕ → ℕ → Db → Db
start_attempt step attempt now expires db =
    let same = λ (a : Attempt). a.step_id == step && a.attempt == attempt in
    record db {
      attempts =
          if any same db.attempts
          then update same
              (λ a. record a {
                status = AttemptStatus.running;
                heartbeat_at = some now;
                lease_expires_at = some expires;
              })
              db.attempts
          else db.attempts
            ++ (let new : Attempt = record {
              step_id = step;
              attempt = attempt;
              status = AttemptStatus.running;
              started_at = now;
              completed_at = none;
              heartbeat_at = some now;
              lease_expires_at = some expires;
              next_attempt_at = none;
              error_code = "";
              error_message = "";
              diagnostic = "";
            } in
                new ∷ []);
    }

-- UPDATE migration_steps SET status='RUNNING',…
unfoldable pub start_step : ℕ → ℕ → ℕ → Db → Db
start_step step attempt now db =
    update_step step
      (λ s. record s {
        status = StepStatus.running;
        attempt = attempt;
        started_at = coalesce s.started_at now;
        updated_at = now;
      })
      db

-- The run moves to the status of the step, unless it is there.
unfoldable pub advance_run : Run → RunStatus → ℕ → Db → Result Db
unfolding validate_transition
advance_run run target now db = if same_status run.status target then ok db else (do
  validate_transition run.status target
  ok (
      update_run run.id
        (λ r. record r {
          status = target;
          started_at = coalesce r.started_at now;
          updated_at = now;
        })
        db))

-- The job, its attempt and its step are the worker's.
unfoldable pub begin_job : Db → ℕ → String → ℕ → Lease → Db
begin_job db now owner expires job = start_step job.step_id (job.attempt + 1) now (
    start_attempt job.step_id (job.attempt + 1) now expires
      (take_lease job.id now owner expires db))

-- INSERT INTO migration_events … 'STEP_STARTED'
unfoldable pub record_start : Lease → Step → ℕ → Db → Db
record_start job step now db =
    insert_event job.run_id "STEP_STARTED" info
      ("Migration step " +++ type_text step.type +++ " started")
      (("stepId", id_value job.step_id)
        ∷ ("stepType", type_value step.type)
        ∷ ("attempt", int_value (job.attempt + 1))
        ∷ [])
      now db

-- What the worker is told.
unfoldable pub claimed : String → ℕ → Lease → Step → Claimed
claimed owner expires job step = record {
  id = job.id;
  run_id = job.run_id;
  step_id = job.step_id;
  step_type = step.type;
  idempotency_key = step.idempotency_key;
  owner_id = owner;
  attempt = job.attempt + 1;
  expires_at = expires;
}

-- The statements that follow the choice of a job.
unfoldable pub claim_job : Db → ℕ → String → ℕ → Lease → Result (Db × Option Claimed)
claim_job db now owner duration job = do
  step ← or_fail (find_step job.step_id db) (failure "select migration job")
  let started = begin_job db now owner (now + duration) job
  run ← or_fail (find_run job.run_id started) (failure "lock claimed migration run")
  target ← or_fail (status_for_step step.type) (failure "unsupported migration step type")
  advanced ← advance_run run target now started
  ok (record_start job step now advanced, some (claimed owner (now + duration) job step))

-- A duration that is not positive is 0. `none` is the answer where no job is due.
unfoldable pub claim : Db → ℕ → (ℕ → Bool) → String → ℕ → Result (Db × Option Claimed)
claim db now locked owner duration =
    if str_eq owner "" || duration == 0
    then err (failure "ownerID and positive lease duration are required")
    else elim (next_job db now locked) [
      | none ↦ ok (db, none)
      | some job ↦ claim_job db now owner duration job
    ]
