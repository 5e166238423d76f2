-- ===== src/Store/Runs/Lifecycle/Completion.antt =====
-- internal/repository/postgres/jobs.go: `Complete` and the status of a run.
use k8s_migration.Base.{
  ℕ, Bool, true, ◌||◌, not, ◌≡◌, refl, sym, ◌∙◌, ◌==◌, inl, inr, Bool-cases, List, Option, none,
  some, find, update, length, arith, String, Ensures, succeeds, Ensures-mono, require-Ensures,
  bind-Ensures, or_fail-Ensures, not_found, failure, invalid_transition,
}
use mathlib.Core.Path.{subst}
use mathlib.Core.Option.{some-injective}
use k8s_migration.Base.Tables.{find-update}
use k8s_migration.Migration.Model.{Run, RunStatus, Step, StepType, ErrorCode}
use k8s_migration.Migration.Transitions.{same_status, is_allowed, validate_transition}
use k8s_migration.Store.Tables.{
  find_run, find_step, steps_of, percent_done, update_progress, next_pending,
}
use k8s_migration.Store.Tables.Laws.{insert_lease-runs}
use k8s_migration.Store.Tables.Rows.{Db}
use k8s_migration.Store.Jobs.Queue.{owned}
use k8s_migration.Store.Jobs.Complete.{
  is_await_cutover, is_rollback, open_gate, rollback_outcome, record_restored, finish_rollback,
  after_step, succeed_step, complete,
}
use k8s_migration.Store.Runs.Lifecycle.{LawfulIn, update-LawfulIn, update_twice-LawfulIn}

-- The run with its progress counted.
abbrev counted : ℕ → ℕ → Run → Run
counted percent now r = record r { progress = percent; updated_at = now }

update_progress-Ensures :
    (run now : ℕ) (db : Db)
    → Ensures
        (λ db'.
          (db'.steps ≡ db.steps)
          × (db'.runs
              ≡ update (λ r. r.id == run) (counted (percent_done (steps_of run db)) now) db.runs))
        (update_progress run now db)
unfolding update_progress
update_progress-Ensures run now db =
    require-Ensures (not (length (steps_of run db) == 0)) (failure "division by zero")
      (λ _. succeeds (refl, refl))

next_pending-steps :
    (run : ℕ) (db db' : Db) → db'.steps ≡ db.steps → next_pending run db' ≡ next_pending run db
unfolding next_pending
next_pending-steps run db db' same = rw same refl

record_restored-runs :
    (code : ErrorCode) (run now : ℕ) (db : Db) → (record_restored code run now db).runs ≡ db.runs
record_restored-runs ErrorCode.no_code run now db = refl
record_restored-runs ErrorCode.cancel_requested run now db = refl
record_restored-runs ErrorCode.source_restore_requested run now db = refl
record_restored-runs ErrorCode.source_restored run now db = refl
record_restored-runs ErrorCode.step_failed run now db = refl
record_restored-runs ErrorCode.validation_reconciled run now db = refl

-- What a completion does to a status: a transition of the table, or the opening of the gate.
abbrev pub opens : RunStatus → RunStatus → Bool
opens from to = is_allowed from to || same_status to RunStatus.awaiting_cutover

abbrev pub Opens : RunStatus → RunStatus → Type 0
Opens from to = (same_status from to || opens from to) ≡ true

allowed-Opens : (from to : RunStatus) → is_allowed from to ≡ true → Opens from to
allowed-Opens from to h = ground (arith, h)

-- After the progress of a run was counted, the run is moved on.
module _ (run percent now : ℕ) (rs : List Run) (db : Db)
    (known : db.runs ≡ update (λ r. r.id == run) (counted percent now) rs) where
  counted-LawfulIn : LawfulIn opens rs db.runs
  counted-LawfulIn =
      subst (LawfulIn opens rs) (sym known)
        (update-LawfulIn opens run (counted percent now) (λ r. refl) rs (λ r _. ground arith))

  moved-LawfulIn :
      (g : Run → Run)
      → ((r : Run) → (g r).id ≡ r.id)
      → ((r : Run)
          → find (λ x. x.id == run) rs ≡ some r
          → Opens r.status (g (counted percent now r)).status)
      → LawfulIn opens rs (update (λ r. r.id == run) g db.runs)
  moved-LawfulIn g keep advances =
      subst (λ runs. LawfulIn opens rs (update (λ r. r.id == run) g runs)) (sym known)
        (update_twice-LawfulIn opens run (counted percent now) g (λ r. refl) keep rs advances)

  finish_rollback-LawfulIn :
      Ensures (λ db'. LawfulIn opens rs db'.runs) (finish_rollback run now db)
  unfolding finish_rollback validate_transition
  finish_rollback-LawfulIn =
      or_fail-Ensures (find_run run db) (failure "read finishing migration run") (λ row e.
        require-Ensures (is_allowed row.status (rollback_outcome row.error_code).0)
          invalid_transition
          (λ allowed. succeeds (
            subst (LawfulIn opens rs) (sym (record_restored-runs row.error_code run now _)) (
              moved-LawfulIn _ (λ r. refl)
                (λ r found.
                  let same : counted percent now r ≡ row =
                    some-injective (counted percent now r) row (
                      sym (find-update (λ x. x.id) run (counted percent now) (λ x. refl) rs r found)
                      ∙ rw known at e) in
                  subst (λ s. Opens s.status (rollback_outcome row.error_code).0) (sym same)
                    (allowed-Opens row.status (rollback_outcome row.error_code).0 allowed))))))

  after_step-LawfulIn :
      (completed : StepType) (fresh : ℕ) (next : Option Step)
      → Ensures (λ db'. LawfulIn opens rs db'.runs) (after_step run completed now fresh next db)
  unfolding after_step open_gate
  after_step-LawfulIn completed fresh (some step) = elim (Bool-cases (is_await_cutover step.type)) [
    | inl e ↦ rw e (succeeds (moved-LawfulIn _ (λ r. refl) (λ r found. ground arith)))
    | inr e ↦ rw e (
        Ensures-mono (λ db' same. subst (LawfulIn opens rs) (sym same) counted-LawfulIn)
          (insert_lease-runs fresh run step.id now now db))
  ]
  after_step-LawfulIn completed fresh none = elim (Bool-cases (is_rollback completed)) [
    | inl e ↦ rw e finish_rollback-LawfulIn
    | inr e ↦ rw e (succeeds counted-LawfulIn)
  ]

-- A completion that succeeds keeps every run, and changes a status only by a transition of the table
-- or by opening the gate.
pub complete-LawfulIn :
    (db : Db) (now fresh lease : ℕ) (owner : String)
    → Ensures (λ db'. LawfulIn opens db.runs db'.runs) (complete db now fresh lease owner)
unfolding complete succeed_step
complete-LawfulIn db now fresh lease owner =
    or_fail-Ensures (find (owned lease owner) db.leases) not_found (λ job e.
      let done : Db = succeed_step lease owner now job db in
      or_fail-Ensures (find_step job.step_id done) (failure "read completed migration step")
        (λ step _. bind-Ensures _ (update_progress-Ensures job.run_id now _) (λ after h.
          after_step-LawfulIn job.run_id _ now db.runs after h.1 step.type fresh
            (next_pending job.run_id after))))
