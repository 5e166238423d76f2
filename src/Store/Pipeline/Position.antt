-- ===== src/Store/Pipeline/Position.antt =====
-- Where a run stands: at one of its steps, which has the only job of the run.
use k8s_migration.Base.{
  ℕ, ◌<◌, true, false, ◌≡◌, ap, ◌||◌, List, [], ◌∷◌, ◌++◌, some, All, select, update, find, arith,
  ◌==◌,
}
use k8s_migration.Base.Tables.{
  Distinct, find-Distinct, find-select, Distinct-select, update-Distinct, select-update,
}
use k8s_migration.Migration.Model.{Run, RunStatus, Step, StepStatus}
use k8s_migration.Migration.Transitions.{same_status, is_allowed, status_for_step}
use k8s_migration.Store.Tables.{
  is_open, has_status, find_run, find_step, steps_of, leases_of, earlier_step, update_step,
}
use k8s_migration.Store.Tables.Rows.{Db, Lease}

-- The rows come in the order of the query.
abbrev pub Ordered : List Step → Type 0
Ordered [] = Unit
Ordered (s ∷ ss) = All (λ t. earlier_step s t ≡ true) ss × Ordered ss

-- The keys of the tables, and UUIDs from `fresh` on that no job has.
pub record Keys (db : Db) (fresh : ℕ) : Type 0 where
  pub step_ids : Distinct (λ s. s.id) db.steps
  pub lease_ids : Distinct (λ l. l.id) db.leases
  pub unused : All (λ l. l.id < fresh) db.leases

-- The run `run` stands at the step `cur`: the steps before it are over, those after it wait in
-- order, and the job `job` is for it.
pub record AtStep (db : Db) (run : Run) (before : List Step) (cur : Step) (after : List Step)
    (job : Lease) : Type 0 where
  pub has_run : find_run run.id db ≡ some run
  pub has_steps : steps_of run.id db ≡ before ++ cur ∷ after
  pub over : All (λ s. is_open s ≡ false) before
  pub current : is_open cur ≡ true
  pub waiting : All (λ s. has_status StepStatus.pending s ≡ true) after
  pub ordered : Ordered after
  pub has_job : leases_of run.id db ≡ job ∷ []
  pub for_step : job.step_id ≡ cur.id
  pub of_run : job.run_id ≡ run.id

-- The step is entered by a transition of the table, unless the run has entered it already.
abbrev pub Enters : Run → Step → RunStatus → Type 0
Enters run step target =
    (status_for_step step.type ≡ some target)
    × ((same_status run.status target || is_allowed run.status target) ≡ true)

module _ {db : Db} {fresh : ℕ} {run : Run} {before : List Step} {cur : Step} {after : List Step}
    {job : Lease} (keys : Keys db fresh) (at : AtStep db run before cur after job) where
  view_ids : Distinct (λ s. s.id) (before ++ cur ∷ after)
  view_ids =
      rw at.has_steps at
        (Distinct-select (λ s. s.id) (λ s. s.run_id == run.id) db.steps keys.step_ids)

  -- The current step is the row that its job names.
  pub find_step-cur : find_step cur.id db ≡ some cur
  find_step-cur =
      find-select (λ s. s.id) (λ s. s.run_id == run.id) db.steps cur keys.step_ids
        (rw at.has_steps (find-Distinct (λ s. s.id) before cur after view_ids))

  pub find-job : find (λ l. l.id == job.id) db.leases ≡ some job
  find-job =
      find-select (λ l. l.id) (λ l. l.run_id == run.id) db.leases job keys.lease_ids
        (rw at.has_job (ground arith))

  -- An update of the current step by its id changes that step alone, among those of the run.
  pub steps_of-update :
      (f : Step → Step)
      → ((s : Step) → (f s).run_id ≡ s.run_id)
      → steps_of run.id (update_step cur.id f db) ≡ before ++ f cur ∷ after
  steps_of-update f keep =
      rw
        (
          select-update (λ s. s.run_id == run.id) (λ s. s.id == cur.id) f
              (λ s. ap (λ (n : ℕ). n == run.id) (keep s)) db.steps,
          at.has_steps,
        )
        (update-Distinct (λ s. s.id) f before cur after view_ids)

  -- An update of the job by its id changes the only job of the run.
  pub leases_of-update :
      (f : Lease → Lease)
      → ((l : Lease) → (f l).run_id ≡ l.run_id)
      → select (λ l. l.run_id == run.id) (update (λ l. l.id == job.id) f db.leases) ≡ f job ∷ []
  leases_of-update f keep =
      rw
        (
          select-update (λ l. l.run_id == run.id) (λ l. l.id == job.id) f
              (λ l. ap (λ (n : ℕ). n == run.id) (keep l)) db.leases,
          at.has_job,
        )
        (ground arith)
