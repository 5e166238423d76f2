-- ===== src/Store/Runs/Lifecycle/Admin.antt =====
-- internal/repository/postgres/migration.go: the administrator's operations and the status of a run.
use k8s_migration.Base.{
  ℕ, ◌+◌, true, not, ◌≡◌, refl, sym, ◌∙◌, ◌||◌, ◌&&◌, ◌==◌, inl, inr, Bool-cases, Option-cases,
  some, none, find, any, update, arith, String, List, Ensures, succeeds, require-Ensures,
  bind-Ensures, or_fail-Ensures, invalid_transition, conflict, not_found,
}
use mathlib.Core.Path.{subst}
use k8s_migration.Migration.Model.{
  Run, RunStatus, Step, StepStatus, EventSeverity, cancel_requested, source_restore_requested,
}
use k8s_migration.Migration.Transitions.{
  same_status, is_allowed, is_terminal, requires_rollback, validate_transition,
}
use k8s_migration.Store.Tables.{find_run, update_run}
use k8s_migration.Store.Tables.Laws.{find_run-own}
use k8s_migration.Store.Tables.Rows.{Db, Value, Confirmation}
use k8s_migration.Store.Jobs.Fail.{rollback_step}
use k8s_migration.Store.Runs.Records.{same_key, transition_run}
use k8s_migration.Store.Runs.Cancel.{
  drop_leases, skip_open, upsert_step, upsert_lease, mark_cancelled, reopen, cancel_with_rollback,
  cancel_at_once, cancel_steps, cancel_run, restore_source,
}
use k8s_migration.Store.Runs.Cutover.{confirm, close_gate, confirm_cutover}
use k8s_migration.Store.Runs.Lifecycle.{Advances, allowed-Advances, Lawful, update-Lawful}

upsert_step-runs :
    (new : Step) (again : Step → Step) (db : Db) → (upsert_step new again db).0.runs ≡ db.runs
unfolding upsert_step
upsert_step-runs new again db =
    elim (Option-cases (find (same_key new.run_id new.idempotency_key) db.steps)) [
      | inl e ↦ rw (e, upsert_step) refl
      | inr (s, e) ↦ rw (e, upsert_step) refl
    ]

upsert_lease-runs :
    (id run step clock : ℕ) (db : Db) → (upsert_lease id run step clock db).runs ≡ db.runs
unfolding upsert_lease
upsert_lease-runs id run step clock db =
    elim (Bool-cases (any (λ l. l.run_id == run && l.step_id == step) db.leases)) [
      | inl e ↦ rw e refl
      | inr e ↦ rw e refl
    ]

-- The undoing step of a run and its job leave the runs as they are.
queued-runs :
    (new : Step) (again : Step → Step) (id run clock : ℕ) (db : Db)
    → (let (stepped, step) = upsert_step new again db in
        (upsert_lease id run step clock stepped).runs)
      ≡ db.runs
queued-runs new again id run clock db =
    upsert_lease-runs id run (upsert_step new again db).1 clock (upsert_step new again db).0
    ∙ upsert_step-runs new again db

confirm-runs : (new : Confirmation) (db : Db) → (confirm new db).runs ≡ db.runs
unfolding confirm
confirm-runs new db = elim (Bool-cases (any (λ c. c.run_id == new.run_id) db.confirmations)) [
  | inl e ↦ rw e refl
  | inr e ↦ rw e refl
]

-- The row of a run that is rolled back for a cancellation, and for a restoration.
abbrev cancelled : ℕ → Run → Run
cancelled now r = record r {
  status = RunStatus.rolling_back;
  error_code = cancel_requested;
  error_message = "Cancellation requested after source quiesce";
  updated_at = now;
}

abbrev restored : ℕ → Run → Run
restored now r = record r {
  status = RunStatus.rolling_back;
  completed_at = none;
  error_code = source_restore_requested;
  error_message = "Source restoration requested after cutover";
  updated_at = now;
}

abbrev restart : ℕ → Step → Step
restart now s = record s {
  attempt = s.attempt + 1;
  status = StepStatus.pending;
  progress = 0;
  started_at = none;
  completed_at = none;
  summary = "";
  updated_at = now;
}

cancel_with_rollback-Lawful :
    (run : Run) (now clock fresh_step fresh_lease : ℕ) (db : Db)
    → find_run run.id db ≡ some run
    → is_allowed run.status RunStatus.rolling_back ≡ true
    → Lawful db.runs (cancel_with_rollback run now clock fresh_step fresh_lease db).runs
unfolding cancel_with_rollback mark_cancelled drop_leases skip_open
cancel_with_rollback-Lawful run now clock fresh_step fresh_lease db e allowed =
    subst (Lawful db.runs)
      (sym (
        queued-runs (rollback_step fresh_step run.id "rollback:v1" now) (reopen now) fresh_lease
          run.id clock (skip_open run.id now (drop_leases run.id (mark_cancelled run now db)))))
      (update-Lawful run.id (cancelled now) (λ r. refl) db.runs run e
        (allowed-Advances run.status RunStatus.rolling_back allowed))

cancel_steps-Lawful :
    (run : Run) (now clock fresh_step fresh_lease : ℕ) (db : Db)
    → find_run run.id db ≡ some run
    → Ensures
        (λ db'. Lawful db.runs db'.runs)
        (cancel_steps run now clock fresh_step fresh_lease db)
unfolding cancel_steps cancel_at_once drop_leases skip_open
cancel_steps-Lawful run now clock fresh_step fresh_lease db e =
    elim (Bool-cases (requires_rollback run.status)) [
      | inl h ↦ rw h (
          require-Ensures (is_allowed run.status RunStatus.rolling_back) conflict (λ allowed.
            succeeds
              (cancel_with_rollback-Lawful run now clock fresh_step fresh_lease db e allowed)))
      | inr h ↦ rw h (
          require-Ensures (is_allowed run.status RunStatus.cancelled) conflict (λ allowed.
            succeeds (
              update-Lawful run.id _ (λ r. refl) db.runs run e
                (allowed-Advances run.status RunStatus.cancelled allowed))))
    ]

-- A cancellation that succeeds keeps every run, and changes a status only by a transition of the
-- table.
pub cancel_run-Lawful :
    (db : Db) (now clock fresh_step fresh_lease id : ℕ)
    → Ensures (λ db'. Lawful db.runs db'.runs) (cancel_run db now clock fresh_step fresh_lease id)
unfolding cancel_run
cancel_run-Lawful db now clock fresh_step fresh_lease id =
    or_fail-Ensures (find_run id db) not_found (λ run e.
      require-Ensures
        (not (is_terminal run.status || same_status run.status RunStatus.rolling_back)) conflict
        (λ _.
          bind-Ensures (cancel_steps run now clock fresh_step fresh_lease db)
            (cancel_steps-Lawful run now clock fresh_step fresh_lease db (find_run-own id db run e))
            (λ cancelled h. succeeds h)))

-- A requested restoration of the source that succeeds keeps every run, and changes a status only
-- by a transition of the table.
pub restore_source-Lawful :
    (db : Db) (now clock fresh_step fresh_lease id : ℕ)
    → Ensures
        (λ db'. Lawful db.runs db'.runs)
        (restore_source db now clock fresh_step fresh_lease id)
unfolding restore_source
restore_source-Lawful db now clock fresh_step fresh_lease id =
    or_fail-Ensures (find_run id db) not_found (λ run e.
      require-Ensures (same_status run.status RunStatus.completed) conflict (λ _.
        require-Ensures (is_allowed run.status RunStatus.rolling_back) conflict (λ allowed.
          succeeds (
            subst (Lawful db.runs)
              (sym (
                queued-runs (rollback_step fresh_step id "restore-source:v1" now) (restart now)
                  fresh_lease id clock (update_run id (restored now) db)))
              (update-Lawful id (restored now) (λ r. refl) db.runs run e
                (allowed-Advances run.status RunStatus.rolling_back allowed))))))

confirmed-Advances :
    (s : RunStatus)
    → same_status s RunStatus.awaiting_cutover ≡ true
    → Advances s RunStatus.completed
unfolding is_allowed
confirmed-Advances s waits = ground arith

abbrev completed : ℕ → Run → Run
completed now r = record r {
  status = RunStatus.completed;
  progress = 100;
  completed_at = some now;
  updated_at = now;
}

-- A confirmation of the cutover that succeeds keeps every run, and changes a status only by a
-- transition of the table.
pub confirm_cutover-Lawful :
    (db : Db) (now fresh id administrator : ℕ) (checklist : List String)
    → Ensures
        (λ db'. Lawful db.runs db'.runs)
        (confirm_cutover db now fresh id administrator checklist)
unfolding confirm_cutover close_gate
confirm_cutover-Lawful db now fresh id administrator checklist =
    or_fail-Ensures (find_run id db) not_found (λ run e.
      require-Ensures (same_status run.status RunStatus.awaiting_cutover) conflict (λ waits.
        succeeds (
          subst (λ runs. Lawful db.runs (update (λ r. r.id == id) (completed now) runs))
            (sym (confirm-runs _ db))
            (update-Lawful id (completed now) (λ r. refl) db.runs run e
              (confirmed-Advances run.status waits)))))

-- A requested transition that succeeds keeps every run, and changes a status only by a transition
-- of the table.
pub transition_run-Lawful :
    (db : Db) (now id : ℕ) (to : RunStatus) (type : String) (severity : EventSeverity)
    (message : String) (detail : List (String × Value))
    → Ensures
        (λ db'. Lawful db.runs db'.runs)
        (transition_run db now id to type severity message detail)
unfolding transition_run validate_transition
transition_run-Lawful db now id to type severity message detail =
    or_fail-Ensures (find_run id db) not_found (λ run e.
      require-Ensures (is_allowed run.status to) invalid_transition (λ allowed.
        succeeds
          (update-Lawful id _ (λ r. refl) db.runs run e (allowed-Advances run.status to allowed))))
