-- ===== src/Store/Runs/Lifecycle/Jobs.antt =====
-- internal/repository/postgres/jobs.go: the workers' operations and the status of a run.
use k8s_migration.Base.{
  ℕ, ◌+◌, Bool, not, ◌≡◌, refl, sym, ◌∙◌, ◌||◌, inl, inr, Bool-cases, Option-cases, some, find,
  String, Option, Ensures, succeeds, fails, Ensures-ok, require-Ensures, bind-Ensures,
  or_fail-Ensures, Ensures-mono, not_found, str_eq, ◌==◌, invalid_transition, failure,
}
use mathlib.Core.Path.{subst}
use k8s_migration.Migration.Model.{Run, RunStatus, Step, step_failed}
use k8s_migration.Migration.Transitions.{
  same_status, is_allowed, requires_rollback, validate_transition,
}
use k8s_migration.Store.Tables.{find_run, find_step, insert_step, insert_lease, update_run}
use k8s_migration.Store.Tables.Laws.{find_run-own, insert_step-runs, insert_lease-runs}
use k8s_migration.Store.Tables.Rows.{Db, Lease, Claimed}
use k8s_migration.Store.Jobs.Queue.{owned}
use k8s_migration.Store.Jobs.Claim.{
  claim, next_job, advance_run, begin_job, start_step, start_attempt, take_lease, record_start,
}
use k8s_migration.Store.Jobs.Exclusive.{ClaimsJob, claim_job-ClaimsJob}
use k8s_migration.Store.Jobs.Complete.{is_rollback}
use k8s_migration.Store.Jobs.Fail.{
  fail, fail_step, fail_run, start_rollback, rollback_step, skip_pending,
}
use k8s_migration.Store.Runs.Lifecycle.{allowed-Advances, Lawful, Lawful-refl, update-Lawful}

advance_run-Lawful :
    (run : Run) (target : RunStatus) (now : ℕ) (db : Db)
    → find_run run.id db ≡ some run
    → Ensures (λ db'. Lawful db.runs db'.runs) (advance_run run target now db)
unfolding advance_run validate_transition
advance_run-Lawful run target now db e = elim (Bool-cases (same_status run.status target)) [
  | inl same ↦ rw same (succeeds (Lawful-refl db.runs))
  | inr other ↦ rw other (
      require-Ensures (is_allowed run.status target) invalid_transition (λ allowed. succeeds (
        update-Lawful run.id _ (λ r. refl) db.runs run e
          (allowed-Advances run.status target allowed))))
]

fail_run-Lawful :
    (run : Run) (now : ℕ) (message : String) (db : Db)
    → find_run run.id db ≡ some run
    → Ensures (λ db'. Lawful db.runs db'.runs) (fail_run run now message db)
unfolding fail_run validate_transition
fail_run-Lawful run now message db e =
    require-Ensures (is_allowed run.status RunStatus.failed) invalid_transition (λ allowed.
      succeeds (
        update-Lawful run.id _ (λ r. refl) db.runs run e
          (allowed-Advances run.status RunStatus.failed allowed)))

start_rollback-Lawful :
    (run : Run) (now fresh_step fresh_lease : ℕ) (message : String) (db : Db)
    → find_run run.id db ≡ some run
    → Ensures
        (λ db'. Lawful db.runs db'.runs)
        (start_rollback run now fresh_step fresh_lease message db)
unfolding start_rollback validate_transition insert_step insert_lease skip_pending
start_rollback-Lawful run now fresh_step fresh_lease message db e =
    require-Ensures (is_allowed run.status RunStatus.rolling_back) invalid_transition (λ allowed.
      let rolling : Db =
        update_run run.id
          (λ r. record r {
            status = RunStatus.rolling_back;
            error_code = step_failed;
            error_message = message;
            updated_at = now;
          })
          db in
      let new : Step = rollback_step fresh_step run.id "rollback:v1" now in
      bind-Ensures (insert_step new (skip_pending run.id now rolling)) (insert_step-runs new _)
        (λ created same.
          Ensures-mono
            (λ db' same'. subst (Lawful db.runs) (sym (same' ∙ same)) (
              update-Lawful run.id _ (λ r. refl) db.runs run e
                (allowed-Advances run.status RunStatus.rolling_back allowed)))
            (insert_lease-runs fresh_lease run.id fresh_step now now created)))

-- A failure of a job that is recorded keeps every run, and changes a status only by a transition
-- of the table.
pub fail-Lawful :
    (db : Db) (now fresh_step fresh_lease lease : ℕ) (owner message : String)
    → Ensures
        (λ db'. Lawful db.runs db'.runs)
        (fail db now fresh_step fresh_lease lease owner message)
unfolding fail fail_step
fail-Lawful db now fresh_step fresh_lease lease owner message =
    or_fail-Ensures (find (owned lease owner) db.leases) not_found (λ job _.
      let failed : Db = fail_step lease owner now job message db in
      or_fail-Ensures (find_run job.run_id failed) (failure "read failed migration run") (λ run e.
        or_fail-Ensures (find_step job.step_id failed) (failure "read failed migration run")
          (λ step _.
            let here : find_run run.id failed ≡ some run = find_run-own job.run_id failed run e in
            elim (Bool-cases (is_rollback step.type || not (requires_rollback run.status))) [
              | inl ends ↦ rw ends (
                  bind-Ensures (fail_run run now message failed)
                    (fail_run-Lawful run now message failed here) (λ ended h. succeeds h))
              | inr undone ↦ rw undone (
                  bind-Ensures (start_rollback run now fresh_step fresh_lease message failed)
                    (start_rollback-Lawful run now fresh_step fresh_lease message failed here)
                    (λ ended h. succeeds h))
            ])))

abbrev pub LawfulClaim : Db → Db × Option Claimed → Type 0
LawfulClaim db r = Lawful db.runs r.0.runs

claim_job-Lawful :
    (db : Db) (now : ℕ) (owner : String) (duration : ℕ) (job : Lease) (r : Db × Option Claimed)
    → ClaimsJob db now owner duration job r
    → LawfulClaim db r
unfolding record_start begin_job start_step start_attempt take_lease
claim_job-Lawful db now owner duration job r k =
    let begun : Db = begin_job db now owner (now + duration) job in
    let here : find_run k.run.id begun ≡ some k.run =
      find_run-own job.run_id begun k.run k.has_run in
    subst (LawfulClaim db) (sym k.returns)
      (Ensures-ok (advance_run-Lawful k.run k.target now begun here) k.advances)

-- A claim that succeeds keeps every run, and changes a status only by a transition of the table.
pub claim-Lawful :
    (db : Db) (now : ℕ) (locked : ℕ → Bool) (owner : String) (duration : ℕ)
    → Ensures (LawfulClaim db) (claim db now locked owner duration)
unfolding claim
claim-Lawful db now locked owner duration = elim (Bool-cases (str_eq owner "" || duration == 0)) [
  | inl bad ↦ rw bad fails
  | inr good ↦ rw good (elim (Option-cases (next_job db now locked)) [
    | inl e ↦ rw e (succeeds (Lawful-refl db.runs))
    | inr (job, e) ↦ rw e (
        Ensures-mono (claim_job-Lawful db now owner duration job)
          (claim_job-ClaimsJob db now owner duration job))
  ])
]
