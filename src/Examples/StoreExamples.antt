-- ===== src/Examples/StoreExamples.antt =====
-- Runs of the theorems on the job queue and on the runs.
use k8s_migration.Base.{
  false, ◌≡◌, ◌≢◌, refl, some, arith, ok, err, not_found, [], ◌∷◌, Result, Option,
}
use k8s_migration.Migration.Transitions.{status_for_step}
use k8s_migration.Store.Tables.Rows.{Db, Claimed}
use k8s_migration.Store.Jobs.Queue.{heartbeat, retry}
use k8s_migration.Store.Jobs.Claim.{
  next_job, take_lease, start_attempt, start_step, advance_run, begin_job, record_start, claimed,
  claim_job, claim,
}
use k8s_migration.Store.Jobs.Complete.{complete}
use k8s_migration.Store.Jobs.Fail.{fail}
use k8s_migration.Store.Jobs.Exclusive.{claim_exclusive}
use k8s_migration.Store.Runs.Cancel.{cancel_run}
use k8s_migration.Store.Runs.Fencing.{cancel_run-fences}
use k8s_migration.Migration.Model.{Run, RunStatus}
use k8s_migration.Store.Tables.{find_run}
use k8s_migration.Store.Runs.Lifecycle.History.{
  History, start, next, claims, cancels, Route, History-Route,
}
use k8s_migration.Examples.Rows.{sample_run, sample_lease, quiesce_step, sample_db}

-- The state and the job of a claim that hands one out.
abbrev state_of : Result (Db × Option Claimed) → Db
state_of (ok (db, c)) = db
state_of (err _) = sample_db

abbrev job_of : Result (Db × Option Claimed) → Claimed
job_of (ok (db, some c)) = c
job_of _ = claimed "" 0 sample_lease quiesce_step

abbrev claimed_db : Db
unfolding claim next_job claim_job begin_job start_step start_attempt take_lease status_for_step
    advance_run record_start claimed
claimed_db = state_of (claim sample_db 30 (λ _. false) "w1" 60)

abbrev cancelled_db : Db
unfolding cancel_run claimed_db claim next_job claim_job begin_job start_step start_attempt
    take_lease status_for_step advance_run record_start claimed
cancelled_db = elim (cancel_run claimed_db 40 40 50 51 5) [ ok db ↦ db | err _ ↦ sample_db ]

cancel_run-fences_example :
    (complete cancelled_db 45 60 7 "w1" ≡ err not_found)
    × (fail cancelled_db 45 60 61 7 "w1" "timeout" ≡ err not_found)
    × (retry cancelled_db 45 7 "w1" 50 "timeout" ≡ err not_found)
    × (heartbeat cancelled_db 45 7 "w1" 60 ≡ (cancelled_db, err not_found))
unfolding cancel_run claimed_db cancelled_db claim next_job claim_job begin_job start_step
    start_attempt take_lease status_for_step advance_run record_start
cancel_run-fences_example =
    cancel_run-fences 7 40 40 50 51 5 claimed_db cancelled_db (ground arith) ((λ _. refl), tt) refl
      45 60 50 60 61 "w1" "timeout"

-- Two jobs, which two workers claim.
abbrev two_jobs : Db
two_jobs = record sample_db {
  leases = sample_lease ∷ (record sample_lease { id = 8; step_id = 42; created_at = 21 }) ∷ [];
}

abbrev first_claim : Result (Db × Option Claimed)
unfolding claim next_job claim_job begin_job start_step start_attempt take_lease status_for_step
    advance_run record_start claimed
first_claim = claim two_jobs 30 (λ _. false) "w1" 60

abbrev second_claim : Result (Db × Option Claimed)
unfolding first_claim claim next_job claim_job begin_job start_step start_attempt take_lease
    status_for_step advance_run record_start claimed
second_claim = claim (state_of first_claim) 35 (λ _. false) "w2" 60

claim_exclusive_example : (job_of second_claim).id ≢ (job_of first_claim).id
unfolding first_claim second_claim claim next_job claim_job begin_job start_step start_attempt
    take_lease status_for_step advance_run record_start claimed
claim_exclusive_example =
    claim_exclusive two_jobs (state_of first_claim) (state_of second_claim) 30 35 (λ _. false)
      (λ _. false) "w1" "w2" 60 60 (job_of first_claim) (job_of second_claim) refl (ground arith)
      refl

-- A worker claims the job, and an administrator cancels the run.
abbrev cancelled_history : History sample_db cancelled_db
unfolding cancel_run claimed_db cancelled_db claim next_job claim_job begin_job start_step
    start_attempt take_lease status_for_step advance_run record_start claimed
cancelled_history =
    next
      (next start (
        claims {c = some (job_of (claim sample_db 30 (λ _. false) "w1" 60))} 30 (λ _. false) "w1" 60
          refl))
      (cancels 40 40 50 51 5 refl)

History-Route_example :
    (run : Run) × (find_run 5 cancelled_db ≡ some run)
    × Route cancelled_history RunStatus.quiesce run.status
History-Route_example = History-Route 5 sample_run refl cancelled_history
