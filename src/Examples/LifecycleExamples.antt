-- ===== src/Examples/LifecycleExamples.antt =====
-- Runs of the theorems on the status, the position and the numbers of a run.
use k8s_migration.Base.{
  ◌+◌, ◌<◌, ◌≡◌, refl, some, [], ◌∷◌, All, arith, List, Ensures, is_ok, true, ok,
}
use k8s_migration.Migration.Model.{Run, Step, RunStatus}
use k8s_migration.Migration.Transitions.{status_for_step}
use k8s_migration.Store.Tables.Rows.{Db, Claimed}
use k8s_migration.Store.Jobs.Claim.{claim_job}
use k8s_migration.Store.Pipeline.Position.{Keys, AtStep}
use k8s_migration.Store.Pipeline.Claiming.{running, entered, held, claim-AtStep}
use k8s_migration.Store.Runs.Schedule.{schedule_run}
use k8s_migration.Store.Runs.Numbers.{scheduled_row, schedule_run-fresh}
use k8s_migration.Examples.Rows.{sample_db, sample_run, sample_lease, quiesce_step, backup_step}

sample-Keys : Keys sample_db 50
sample-Keys = record {
  step_ids = (((ground arith), tt), (tt, tt));
  lease_ids = (tt, tt);
  unused = ((ground arith), tt);
}

sample-AtStep : AtStep sample_db sample_run [] quiesce_step (backup_step ∷ []) sample_lease
sample-AtStep = record {
  has_run = refl;
  has_steps = refl;
  over = tt;
  current = refl;
  waiting = (refl, tt);
  ordered = (tt, tt);
  has_job = refl;
  for_step = refl;
  of_run = refl;
}

claim-AtStep_example :
    (db : Db) × (c : Claimed) × (claim_job sample_db 30 "w1" 60 sample_lease ≡ ok (db, some c))
    × (c.id ≡ 7)
    × AtStep db
        (entered sample_run RunStatus.quiesce 30)
        []
        (running quiesce_step sample_lease 30)
        (backup_step ∷ [])
        (held sample_lease 30 "w1" (30 + 60))
    × Keys db 50
unfolding status_for_step
claim-AtStep_example =
    claim-AtStep sample-Keys sample-AtStep 30 "w1" 60 RunStatus.quiesce (refl, refl)

-- The plan is started again, as a run of its own.
abbrev second_run : Run
second_run = record sample_run { id = 6 }

abbrev second_steps : List Step
second_steps = record quiesce_step { id = 0 } ∷ []

is_scheduled :
    is_ok (schedule_run sample_db 60 61 (λ n. 70 + n) 55 second_run second_steps true) ≡ true
unfolding schedule_run
is_scheduled = refl

schedule_run-fresh_example :
    Ensures
      (λ answer.
        (answer.1.id ≡ 6)
        × (answer.1.plan_id ≡ 3)
        × (answer.0.runs ≡ sample_run ∷ scheduled_row answer.1 ∷ [])
        × All (λ r. r.run_number < answer.1.run_number) (sample_run ∷ []))
      (schedule_run sample_db 60 61 (λ n. 70 + n) 55 second_run second_steps true)
schedule_run-fresh_example =
    schedule_run-fresh sample_db 60 61 (λ n. 70 + n) 55 second_run second_steps true
