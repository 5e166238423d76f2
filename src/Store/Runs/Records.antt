-- ===== src/Store/Runs/Records.antt =====
-- internal/repository/postgres/migration.go: `DeleteRun`, `CreateRun`, `GetRun`, `TransitionRun`,
-- `EnsureStep`, `UpdateStep`, `ListSteps` and `ListEvents`.
use k8s_migration.Base.{
  ℕ, String, Bool, ◌&&◌, ◌||◌, Option, none, some, List, [], ◌∷◌, zero, suc, ◌==◌, ltb, leb, str_eq,
  if◌then◌else◌, ◌+++◌, select, update, find, any, order_by, Result, ok, err, not_found, conflict,
  or_fail, require, ◌>>=◌, ◌>>◌,
}
use k8s_migration.Migration.Model.{Run, RunStatus, Step, EventSeverity}
use k8s_migration.Migration.Transitions.{same_status, is_terminal, validate_transition}
use k8s_migration.Migration.Texts.{status_text}
use k8s_migration.Store.Tables.{
  coalesce, find_run, steps_of, update_run, update_step, insert_event, earlier_step, insert_step,
}
use k8s_migration.Store.Tables.Rows.{Db, Event, Value}
use k8s_migration.Store.Runs.Schedule.{insert_run}

-- The row stays, and is hidden from the task list.
unfoldable pub delete_run : Db → ℕ → ℕ → Result Db
unfolding is_terminal
delete_run db now id = elim (find (λ r. r.id == id && is_terminal r.status) db.runs) [
  | none ↦ err conflict
  | some _ ↦ ok (record db {
    runs =
        update (λ r. r.id == id && is_terminal r.status) (λ r. record r { deleted_at = some now })
          db.runs;
  })
]

unfoldable pub create_run : Db → ℕ → Run → Result Db
unfolding insert_run
create_run db now run =
    insert_run (record run { created_at = now; updated_at = now; deleted_at = none }) db

unfoldable pub get_run : Db → ℕ → Result Run
get_run db id = or_fail (find_run id db) not_found

-- ORDER BY created_at, id
unfoldable pub list_steps : Db → ℕ → List Step
list_steps db run = order_by earlier_step (steps_of run db)

-- What the caller leaves empty is filled in.
abbrev or_default : String → String → String
or_default value default = if str_eq value "" then default else value

-- `started_at` and `completed_at` after a transition.
abbrev pub started_by : RunStatus → Run → ℕ → Option ℕ
started_by to run now =
    if same_status to RunStatus.preflight then coalesce run.started_at now else run.started_at

abbrev pub completed_by : RunStatus → ℕ → Option ℕ
completed_by to now = if is_terminal to then some now else none

unfoldable pub transition_run :
    Db → ℕ → ℕ → RunStatus → String → EventSeverity → String → List (String × Value) → Result Db
unfolding validate_transition is_terminal
transition_run db now id to type severity message detail = do
  run ← or_fail (find_run id db) not_found
  validate_transition run.status to
  let moved : Db =
      update_run id
        (λ r. record r {
          status = to;
          started_at = started_by to r now;
          completed_at = completed_by to now;
          updated_at = now;
        })
        db
  ok (
      insert_event id (or_default type "RUN_STATUS_CHANGED") severity
        (or_default message (
          "Migration status changed from "
          +++ status_text run.status
          +++ " to "
          +++ status_text to))
        detail now moved)

abbrev pub same_key : ℕ → String → Step → Bool
same_key run key s = s.run_id == run && str_eq s.idempotency_key key

-- The step that is there under the key is kept as it is.
unfoldable pub ensure_step : Db → Step → Result (Db × Step)
unfolding insert_step
ensure_step db value = elim (find (same_key value.run_id value.idempotency_key) db.steps) [
  | some stored ↦ ok (db, stored)
  | none ↦ do inserted ← insert_step value db; ok (inserted, value)
]

unfoldable pub update_step_row : Db → Step → Result Db
update_step_row db value = do
  or_fail (find (λ s. s.id == value.id) db.steps) not_found >>= λ _. ok (
      update_step value.id
        (λ s. record s {
          attempt = value.attempt;
          status = value.status;
          progress = value.progress;
          started_at = value.started_at;
          completed_at = value.completed_at;
          summary = value.summary;
          updated_at = value.updated_at;
        })
        db)

-- LIMIT n
abbrev pub take {ℓ} : {A : Type ℓ} → ℕ → List A → List A
take zero xs = []
take (suc n) [] = []
take (suc n) (x ∷ xs) = x ∷ take n xs

unfoldable pub page_limit : ℕ → ℕ
page_limit limit = if limit == 0 || ltb 500 limit then 200 else limit

-- A limit that is not positive is 0.
unfoldable pub list_events : Db → ℕ → ℕ → ℕ → Result (List Event)
unfolding page_limit
list_events db run after limit = do
  require (any (λ r. r.id == run) db.runs) not_found
  ok (
      take (page_limit limit) (
        order_by (λ a b. leb a.id b.id)
          (select (λ e. e.run_id == run && ltb after e.id) db.events)))
