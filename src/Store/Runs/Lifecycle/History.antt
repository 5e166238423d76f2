-- ===== src/Store/Runs/Lifecycle/History.antt =====
-- Any sequence of the operations on runs and jobs (jobs.go, migration.go and the reconciliation of
-- migration_evidence.go in internal/repository/postgres), in any order and
-- by any number of workers and administrators: each is one transaction.
use k8s_migration.Base.{
  ℕ, Bool, true, ◌≡◌, refl, sym, ◌||◌, ◌&&◌, inl, inr, Option-cases, Bool-cases, ◌∙◌, any, conflict,
  require-Ensures, List, Option, some, find, arith, String, ok, not_found, Ensures, succeeds,
  Ensures-ok, or_fail-Ensures,
}
use mathlib.Core.Path.{subst}
use mathlib.Core.Option.{some-injective}
use k8s_migration.Migration.Model.{Run, RunStatus, EventSeverity}
use k8s_migration.Migration.Transitions.{same_status, is_allowed}
use k8s_migration.Store.Tables.{find_run}
use k8s_migration.Store.Tables.Rows.{Db, Claimed, Value}
use k8s_migration.Store.Jobs.Queue.{owned, is_live, heartbeat, retry}
use k8s_migration.Store.Jobs.Claim.{claim}
use k8s_migration.Store.Jobs.Complete.{complete}
use k8s_migration.Store.Jobs.Fail.{fail}
use k8s_migration.Store.Runs.Records.{transition_run}
use k8s_migration.Store.Runs.Cancel.{cancel_run, restore_source}
use k8s_migration.Store.Runs.Reconcile.{
  has_failed_validation, reconcile_steps, reconcile_validation_success,
}
use k8s_migration.Store.Runs.Cutover.{confirm_cutover}
use k8s_migration.Store.Runs.Lifecycle.{Lawful, LawfulIn, Lawful-refl, update-LawfulIn}
use k8s_migration.Store.Runs.Lifecycle.Jobs.{claim-Lawful, fail-Lawful}
use k8s_migration.Store.Runs.Lifecycle.Admin.{
  cancel_run-Lawful, restore_source-Lawful, confirm_cutover-Lawful, transition_run-Lawful,
}
use k8s_migration.Store.Runs.Lifecycle.Completion.{opens, complete-LawfulIn}

-- One operation that succeeds, or a heartbeat.
pub data Happens (db : Db) : Db → Type 0 where
  claims :
      {db' : Db} {c : Option Claimed} (now : ℕ) (locked : ℕ → Bool) (owner : String) (duration : ℕ)
      → claim db now locked owner duration ≡ ok (db', c)
      → Happens db db'
  beats :
      (now lease : ℕ) (owner : String) (duration : ℕ)
      → Happens db (heartbeat db now lease owner duration).0
  completes :
      {db' : Db} (now fresh lease : ℕ) (owner : String)
      → complete db now fresh lease owner ≡ ok db'
      → Happens db db'
  retries :
      {db' : Db} (now lease : ℕ) (owner : String) (available : ℕ) (message : String)
      → retry db now lease owner available message ≡ ok db'
      → Happens db db'
  fails :
      {db' : Db} (now fresh_step fresh_lease lease : ℕ) (owner message : String)
      → fail db now fresh_step fresh_lease lease owner message ≡ ok db'
      → Happens db db'
  cancels :
      {db' : Db} (now clock fresh_step fresh_lease id : ℕ)
      → cancel_run db now clock fresh_step fresh_lease id ≡ ok db'
      → Happens db db'
  restores :
      {db' : Db} (now clock fresh_step fresh_lease id : ℕ)
      → restore_source db now clock fresh_step fresh_lease id ≡ ok db'
      → Happens db db'
  confirms :
      {db' : Db} (now fresh id administrator : ℕ) (checklist : List String)
      → confirm_cutover db now fresh id administrator checklist ≡ ok db'
      → Happens db db'
  transitions :
      {db' : Db} (now id : ℕ) (to : RunStatus) (type : String) (severity : EventSeverity)
      (message : String) (detail : List (String × Value))
      → transition_run db now id to type severity message detail ≡ ok db'
      → Happens db db'
  reconciles :
      {db' : Db} (now id checked_at : ℕ)
      → reconcile_validation_success db now id checked_at ≡ ok db'
      → Happens db db'

-- What an operation may do to a status: a completion may open the gate, a reconciliation completes a
-- run that has failed, and the other operations follow the transition table.
abbrev pub reconciled : RunStatus → RunStatus → Bool
reconciled from to = same_status from RunStatus.failed && same_status to RunStatus.completed

abbrev pub allowed_by : {db db' : Db} → Happens db db' → RunStatus → RunStatus → Bool
allowed_by (completes now fresh lease owner _) = opens
allowed_by (reconciles now id checked_at _) = reconciled
allowed_by _ = is_allowed

-- The operations one after the other.
pub data History (db : Db) : Db → Type 0 where
  start : History db db
  next : {mid last : Db} → History db mid → Happens mid last → History db last

-- The statuses of a run along a history: each operation keeps the status, or changes it as is allowed
-- to this operation.
abbrev pub Route : {db db' : Db} → History db db' → RunStatus → RunStatus → Type 0
Route start from to = to ≡ from
Route (next before step) from to =
    (mid : RunStatus) × Route before from mid
    × ((same_status mid to || allowed_by step mid to) ≡ true)

heartbeat-runs :
    (db : Db) (now lease : ℕ) (owner : String) (duration : ℕ)
    → (heartbeat db now lease owner duration).0.runs ≡ db.runs
unfolding heartbeat
heartbeat-runs db now lease owner duration =
    elim (Option-cases (find (λ l. owned lease owner l && is_live now l) db.leases)) [
      | inl e ↦ rw (e, heartbeat) refl
      | inr (job, e) ↦ rw (e, heartbeat) refl
    ]

retry-Lawful :
    (db : Db) (now lease : ℕ) (owner : String) (available : ℕ) (message : String)
    → Ensures (λ db'. Lawful db.runs db'.runs) (retry db now lease owner available message)
unfolding retry
retry-Lawful db now lease owner available message =
    or_fail-Ensures (find (owned lease owner) db.leases) not_found
      (λ job _. succeeds (Lawful-refl db.runs))

reconcile-LawfulIn :
    (db : Db) (now id checked_at : ℕ)
    → Ensures
        (λ db'. LawfulIn reconciled db.runs db'.runs)
        (reconcile_validation_success db now id checked_at)
unfolding reconcile_validation_success reconcile_steps
reconcile-LawfulIn db now id checked_at = or_fail-Ensures (find_run id db) not_found (λ run e.
    elim (Bool-cases (same_status run.status RunStatus.completed)) [
      | inl done ↦ rw done (succeeds (λ other before b. (before, b, ground arith)))
      | inr open_run ↦ rw open_run (
          require-Ensures (same_status run.status RunStatus.failed) conflict (λ failed.
            require-Ensures (any (has_failed_validation id) db.steps) conflict (λ _. succeeds (
              update-LawfulIn reconciled id _ (λ r. refl) db.runs
                (λ before b.
                  subst
                    (λ r.
                      (same_status r.status RunStatus.completed
                        || reconciled r.status RunStatus.completed)
                      ≡ true)
                    (some-injective run before (sym e ∙ b)) (ground (arith, failed)))))))
    ])

Happens-LawfulIn :
    {db db' : Db} (step : Happens db db') → LawfulIn (allowed_by step) db.runs db'.runs
Happens-LawfulIn {db = db} (claims now locked owner duration h) =
    Ensures-ok (claim-Lawful db now locked owner duration) h
Happens-LawfulIn {db = db} (beats now lease owner duration) =
    subst (Lawful db.runs) (sym (heartbeat-runs db now lease owner duration)) (Lawful-refl db.runs)
Happens-LawfulIn {db = db} (completes now fresh lease owner h) =
    Ensures-ok (complete-LawfulIn db now fresh lease owner) h
Happens-LawfulIn {db = db} (reconciles now id checked_at h) =
    Ensures-ok (reconcile-LawfulIn db now id checked_at) h
Happens-LawfulIn {db = db} (retries now lease owner available message h) =
    Ensures-ok (retry-Lawful db now lease owner available message) h
Happens-LawfulIn {db = db} (fails now fresh_step fresh_lease lease owner message h) =
    Ensures-ok (fail-Lawful db now fresh_step fresh_lease lease owner message) h
Happens-LawfulIn {db = db} (cancels now clock fresh_step fresh_lease id h) =
    Ensures-ok (cancel_run-Lawful db now clock fresh_step fresh_lease id) h
Happens-LawfulIn {db = db} (restores now clock fresh_step fresh_lease id h) =
    Ensures-ok (restore_source-Lawful db now clock fresh_step fresh_lease id) h
Happens-LawfulIn {db = db} (confirms now fresh id administrator checklist h) =
    Ensures-ok (confirm_cutover-Lawful db now fresh id administrator checklist) h
Happens-LawfulIn {db = db} (transitions now id to type severity message detail h) =
    Ensures-ok (transition_run-Lawful db now id to type severity message detail) h

-- Through any history of claims, heartbeats, completions, retries, failures, cancellations, restorations, confirmations, requested transitions and reconciliations a run is kept, and each operation keeps its status or changes it by a transition of the table, with two exceptions: a completion may also open the cutover gate, and a reconciliation completes a run that has failed.
pub History-Route :
    (id : ℕ) (run : Run) {db db' : Db}
    → find_run id db ≡ some run
    → (history : History db db')
    → (run' : Run) × (find_run id db' ≡ some run') × Route history run.status run'.status
History-Route id run e start = (run, e, refl)
History-Route id run e (next before step) =
    let (mid, found, route) = History-Route id run e before in
    let (last, found', change) = Happens-LawfulIn step id mid found in
    (last, found', (mid.status, route, change))
