-- ===== src/Store/Pipeline/Claiming.antt =====
-- The claim of the job of a run that stands at a step.
use k8s_migration.Base.{
  ℕ, ◌+◌, ◌<◌, String, true, ◌≡◌, refl, inl, inr, Bool-cases, List, [], ◌∷◌, ◌++◌, some, update,
  ◌==◌, if◌then◌else◌, ok,
}
use k8s_migration.Base.Tables.{Distinct-update, find-update, All-update}
use k8s_migration.Migration.Model.{Run, RunStatus, Step, StepStatus}
use k8s_migration.Migration.Transitions.{same_status, is_allowed, validate_transition}
use k8s_migration.Store.Tables.{coalesce, find_run, find_step, steps_of, leases_of}
use k8s_migration.Store.Tables.Rows.{Db, Lease, Claimed}
use k8s_migration.Store.Jobs.Claim.{
  take_lease, start_attempt, start_step, advance_run, begin_job, record_start, claimed, claim_job,
}
use k8s_migration.Store.Pipeline.Position.{
  Keys, AtStep, Enters, find_step-cur, steps_of-update, leases_of-update,
}

-- The step that runs, the run that has entered it and the job that its worker holds.
abbrev pub running : Step → Lease → ℕ → Step
running cur job now = record cur {
  status = StepStatus.running;
  attempt = job.attempt + 1;
  started_at = coalesce cur.started_at now;
  updated_at = now;
}

abbrev pub entered : Run → RunStatus → ℕ → Run
entered run target now = record run {
  status = if same_status run.status target then run.status else target;
  started_at =
      if same_status run.status target then run.started_at else coalesce run.started_at now;
  updated_at = if same_status run.status target then run.updated_at else now;
}

abbrev pub held : Lease → ℕ → String → ℕ → Lease
held job now owner expires = record job {
  owner_id = owner;
  lease_expires_at = some expires;
  heartbeat_at = some now;
  attempt = job.attempt + 1;
  updated_at = now;
}

module _ {db : Db} {fresh : ℕ} {run : Run} {before : List Step} {cur : Step} {after : List Step}
    {job : Lease} (keys : Keys db fresh) (at : AtStep db run before cur after job) (now : ℕ)
    (owner : String) (duration : ℕ) (target : RunStatus) (enters : Enters run cur target) where
  begun : Db
  begun = begin_job db now owner (now + duration) job

  advanced : Db
  unfolding begun
  advanced = if same_status run.status target then begun else record begun {
    runs =
        update (λ r. r.id == run.id)
          (λ r. record r {
            status = target;
            started_at = coalesce r.started_at now;
            updated_at = now;
          })
          begun.runs;
  }

  advance_run_ok : advance_run run target now begun ≡ ok advanced
  unfolding advance_run advanced validate_transition
  advance_run_ok = elim (Bool-cases (same_status run.status target)) [
    | inl e ↦ rw e refl
    | inr e ↦
        (let allowed : is_allowed run.status target ≡ true = rw e at enters.1 in
          rw (e, allowed) refl)
  ]

  begun-run : find_run run.id begun ≡ some run
  unfolding begun begin_job start_step start_attempt take_lease
  begun-run = at.has_run

  claim_job_ok :
      claim_job db now owner duration job
      ≡ ok (record_start job cur now advanced, some (claimed owner (now + duration) job cur))
  unfolding claim_job begun begin_job
  claim_job_ok =
      let has_step : find_step job.step_id db ≡ some cur = rw at.for_step (find_step-cur keys at) in
      let has_run : find_run job.run_id begun ≡ some run = rw at.of_run begun-run in
      rw (has_step, has_run, enters.0, advance_run_ok) refl

  advanced-run : find_run run.id advanced ≡ some (entered run target now)
  unfolding advanced begun begin_job start_step start_attempt take_lease
  advanced-run = elim (Bool-cases (same_status run.status target)) [
    | inl e ↦ rw e at.has_run
    | inr e ↦ rw e (
        find-update (λ r. r.id) run.id
          (λ r. record r {
            status = target;
            started_at = coalesce r.started_at now;
            updated_at = now;
          })
          (λ r. refl) db.runs run at.has_run)
  ]

  -- A run that does not change its status has the rows of one that does.
  advanced-tables : (advanced.steps ≡ begun.steps) × (advanced.leases ≡ begun.leases)
  unfolding advanced
  advanced-tables = elim (Bool-cases (same_status run.status target)) [
    | inl e ↦ rw e (refl, refl)
    | inr e ↦ rw e (refl, refl)
  ]

  begun-steps : steps_of run.id begun ≡ before ++ running cur job now ∷ after
  unfolding begun begin_job start_step start_attempt take_lease
  begun-steps = rw at.for_step (
      steps_of-update keys at
        (λ s. record s {
          status = StepStatus.running;
          attempt = job.attempt + 1;
          started_at = coalesce s.started_at now;
          updated_at = now;
        })
        (λ s. refl))

  begun-leases : leases_of run.id begun ≡ held job now owner (now + duration) ∷ []
  unfolding begun begin_job start_step start_attempt take_lease
  begun-leases =
      leases_of-update keys at
        (λ l. record l {
          owner_id = owner;
          lease_expires_at = some (now + duration);
          heartbeat_at = some now;
          attempt = l.attempt + 1;
          updated_at = now;
        })
        (λ l. refl)

  begun-Keys : Keys begun fresh
  unfolding begun begin_job start_step start_attempt take_lease
  begun-Keys = record {
    step_ids = Distinct-update (λ s. s.id) _ _ (λ s. refl) db.steps keys.step_ids;
    lease_ids = Distinct-update (λ l. l.id) _ _ (λ l. refl) db.leases keys.lease_ids;
    unused =
        All-update (λ l. l.id < fresh) (λ l. l.id < fresh) _ _ (λ l _ h. h) (λ l _ h. h) db.leases
          keys.unused;
  }

  advanced-steps : steps_of run.id advanced ≡ before ++ running cur job now ∷ after
  advanced-steps = rw advanced-tables.0 begun-steps

  advanced-leases : leases_of run.id advanced ≡ held job now owner (now + duration) ∷ []
  advanced-leases = rw advanced-tables.1 begun-leases

  advanced-Keys : Keys advanced fresh
  advanced-Keys = record {
    step_ids = rw advanced-tables.0 begun-Keys.step_ids;
    lease_ids = rw advanced-tables.1 begun-Keys.lease_ids;
    unused = rw advanced-tables.1 begun-Keys.unused;
  }

  -- A run stands at a step, and the transition table lets it enter the step, or it has entered
  -- it. Then the claim of the job of the step succeeds, and the run stands at the same step,
  -- which runs and whose job the worker holds.
  pub claim-AtStep :
      (db' : Db) × (c : Claimed) × (claim_job db now owner duration job ≡ ok (db', some c))
      × (c.id ≡ job.id)
      × AtStep db'
          (entered run target now)
          before
          (running cur job now)
          after
          (held job now owner (now + duration))
      × Keys db' fresh
  unfolding record_start claimed
  claim-AtStep = (
    record_start job cur now advanced,
    claimed owner (now + duration) job cur,
    claim_job_ok,
    refl,
    record {
      has_run = advanced-run;
      has_steps = advanced-steps;
      over = at.over;
      current = refl;
      waiting = at.waiting;
      ordered = at.ordered;
      has_job = advanced-leases;
      for_step = at.for_step;
      of_run = at.of_run;
    },
    record {
      step_ids = advanced-Keys.step_ids;
      lease_ids = advanced-Keys.lease_ids;
      unused = advanced-Keys.unused;
    },
  )
