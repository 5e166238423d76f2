-- ===== src/Store/Runs/Fencing.antt =====
-- A cancelled run against the worker that still holds its job.
use k8s_migration.Base.{
  ℕ, String, not, ◌≡◌, ◌≢◌, sym, inl, inr, ◌==◌, Bool-cases, none, All, find, any, arith, ok, err,
  not_found, Ensures, succeeds, fails, Ensures-ok, require-Ensures, conflict, ◌||◌, Option-cases,
  Result-cases, ◌&&◌,
}
use k8s_migration.Base.Tables.{All-append, All-delete_left, All-mono, All-update, find-none}
use k8s_migration.Migration.Model.{Run, RunStatus, Step}
use k8s_migration.Migration.Transitions.{same_status, requires_rollback, is_terminal, is_allowed}
use k8s_migration.Store.Tables.{find_run}
use k8s_migration.Store.Tables.Laws.{find_run-id}
use k8s_migration.Store.Tables.Rows.{Db}
use k8s_migration.Store.Jobs.Queue.{owned, is_live, heartbeat, retry}
use k8s_migration.Store.Jobs.Complete.{complete}
use k8s_migration.Store.Jobs.Fail.{fail, rollback_step}
use k8s_migration.Store.Runs.Cancel.{
  mark_cancelled, reopen, drop_leases, skip_open, upsert_step, upsert_lease, cancel_with_rollback,
  cancel_at_once, cancel_steps, cancel_run,
}
use k8s_migration.Store.Runs.Records.{same_key}

-- The job `lease` is a job of the run, if there is one.
abbrev pub JobOf : ℕ → ℕ → Db → Type 0
JobOf lease run db = All (λ l. l.id ≡ lease → l.run_id ≡ run) db.leases

-- No job has the id.
abbrev pub NoJob : ℕ → Db → Type 0
NoJob lease db = All (λ l. l.id ≢ lease) db.leases

drop_leases-NoJob :
    (lease run : ℕ) (db : Db) → JobOf lease run db → NoJob lease (drop_leases run db)
unfolding drop_leases
drop_leases-NoJob lease run db =
    All-delete_left (λ l. l.id ≡ lease → l.run_id ≡ run) (λ l. l.id ≢ lease) (λ l. l.run_id == run)
      (λ l other own e. ground (arith, own e)) db.leases

upsert_lease-NoJob :
    (lease id run step clock : ℕ) (db : Db)
    → lease ≢ id
    → NoJob lease db
    → NoJob lease (upsert_lease id run step clock db)
unfolding upsert_lease
upsert_lease-NoJob lease id run step clock db ne h =
    elim (Bool-cases (any (λ l. l.run_id == run && l.step_id == step) db.leases)) [
      | inl e ↦ rw e (
          All-update (λ l. l.id ≢ lease) (λ l. l.id ≢ lease) _ _ (λ l _ k. k) (λ l _ k. k) db.leases
            h)
      | inr e ↦ rw e (All-append (λ l. l.id ≢ lease) db.leases _ h ((λ same. ne (sym same)), tt))
    ]

upsert_step-NoJob :
    (lease : ℕ) (new : Step) (again : Step → Step) (db : Db)
    → NoJob lease db
    → NoJob lease (upsert_step new again db).0
unfolding upsert_step
upsert_step-NoJob lease new again db h =
    elim (Option-cases (find (same_key new.run_id new.idempotency_key) db.steps)) [
      | inl e ↦ rw (e, upsert_step) h
      | inr (s, e) ↦ rw (e, upsert_step) h
    ]

-- Both ways to cancel remove the jobs of the run.
cancel_with_rollback-NoJob :
    (lease : ℕ) (run : Run) (now clock fresh_step fresh_lease : ℕ) (db : Db)
    → lease ≢ fresh_lease
    → JobOf lease run.id db
    → NoJob lease (cancel_with_rollback run now clock fresh_step fresh_lease db)
unfolding cancel_with_rollback
cancel_with_rollback-NoJob lease run now clock fresh_step fresh_lease db ne job =
    let marked : Db = mark_cancelled run now db in
    let stepped =
      upsert_step (rollback_step fresh_step run.id "rollback:v1" now) (reopen now)
        (skip_open run.id now (drop_leases run.id marked)) in
    upsert_lease-NoJob lease fresh_lease run.id stepped.1 clock stepped.0 ne (
      upsert_step-NoJob lease (rollback_step fresh_step run.id "rollback:v1" now) (reopen now)
        (skip_open run.id now (drop_leases run.id marked)) (drop_leases-NoJob lease run.id db job))

cancel_steps-NoJob :
    (lease : ℕ) (run : Run) (now clock fresh_step fresh_lease : ℕ) (db : Db)
    → lease ≢ fresh_lease
    → JobOf lease run.id db
    → Ensures (NoJob lease) (cancel_steps run now clock fresh_step fresh_lease db)
unfolding cancel_steps cancel_at_once
cancel_steps-NoJob lease run now clock fresh_step fresh_lease db ne job =
    elim (Bool-cases (requires_rollback run.status)) [
      | inl e ↦ rw e (
          require-Ensures (is_allowed run.status RunStatus.rolling_back) conflict (λ _.
            succeeds
              (cancel_with_rollback-NoJob lease run now clock fresh_step fresh_lease db ne job)))
      | inr e ↦ rw e (
          require-Ensures (is_allowed run.status RunStatus.cancelled) conflict
            (λ _. succeeds (drop_leases-NoJob lease run.id db job)))
    ]

cancel_run-NoJob :
    (lease now clock fresh_step fresh_lease id : ℕ) (db : Db)
    → lease ≢ fresh_lease
    → JobOf lease id db
    → Ensures (NoJob lease) (cancel_run db now clock fresh_step fresh_lease id)
unfolding cancel_run
cancel_run-NoJob lease now clock fresh_step fresh_lease id db ne job =
    elim (Option-cases (find_run id db)) [
      | inl e ↦ rw e fails
      | inr (run, e) ↦ rw e (
          require-Ensures
            (not (is_terminal run.status || same_status run.status RunStatus.rolling_back)) conflict
            (λ _. elim (Result-cases (cancel_steps run now clock fresh_step fresh_lease db)) [
              | inl (x, h) ↦ rw h fails
              | inr (done, h) ↦ rw h (
                  succeeds (
                    Ensures-ok
                      (cancel_steps-NoJob lease run now clock fresh_step fresh_lease db ne
                        (rw (find_run-id id db run e) job))
                      h))
            ]))
    ]

-- After an administrator has cancelled a run, the worker that held a job of the run has lost it:
-- it can neither complete it, nor fail it, nor hand it back, nor renew it, at any time, and its
-- attempts change nothing. The job is one of this run, and the cancellation has not drawn its id
-- anew.
pub cancel_run-fences :
    (lease now clock fresh_step fresh_lease id : ℕ) (db db' : Db)
    → lease ≢ fresh_lease
    → JobOf lease id db
    → cancel_run db now clock fresh_step fresh_lease id ≡ ok db'
    → (time duration available fresh fresh' : ℕ) (owner message : String)
    → (complete db' time fresh lease owner ≡ err not_found)
      × (fail db' time fresh fresh' lease owner message ≡ err not_found)
      × (retry db' time lease owner available message ≡ err not_found)
      × (heartbeat db' time lease owner duration ≡ (db', err not_found))
unfolding complete fail retry heartbeat
cancel_run-fences lease now clock fresh_step fresh_lease id db db' ne job h time duration available
      fresh fresh' owner message =
    let gone : NoJob lease db' =
      Ensures-ok (cancel_run-NoJob lease now clock fresh_step fresh_lease id db ne job) h in
    let unowned : find (owned lease owner) db'.leases ≡ none =
      find-none (owned lease owner) db'.leases
        (All-mono _ _ (λ l k. ground arith) db'.leases gone) in
    let unrenewed : find (λ l. owned lease owner l && is_live time l) db'.leases ≡ none =
      find-none (λ l. owned lease owner l && is_live time l) db'.leases
        (All-mono _ _ (λ l k. ground arith) db'.leases gone) in
    (simp unowned, simp unowned, simp unowned, rw (unrenewed, heartbeat))
