-- ===== src/Store/Jobs/Queue.antt =====
-- internal/repository/postgres/jobs.go: `Enqueue`, `Heartbeat` and `Retry`.
use k8s_migration.Base.{
  ℕ, ◌+◌, String, Bool, false, ◌&&◌, none, some, [], ◌∷◌, ◌++◌, ◌==◌, leb, str_eq, if◌then◌else◌,
  length, select, update, find, Result, ok, err, not_found, failure, require, or_fail, ◌>>=◌,
}
use k8s_migration.Migration.Model.{StepStatus, warning}
use k8s_migration.Store.Tables.{
  find_run, find_step, update_step, update_attempt, insert_event, new_lease,
}
use k8s_migration.Store.Tables.Rows.{
  Lease, Attempt, AttemptStatus, Db, id_value, int_value, time_value, text_value,
}

-- LEAST(a, b)
abbrev least : ℕ → ℕ → ℕ
least a b = if leb a b then a else b

-- ON CONFLICT (migration_run_id, step_id) DO UPDATE: the job that is there may start earlier.
unfoldable pub enqueue : Db → ℕ → ℕ → ℕ → ℕ → ℕ → Result (Db × ℕ)
unfolding new_lease
enqueue db now fresh run step available = do
  or_fail (find_run run db) (failure "enqueue migration job") >>= λ _.
      or_fail (find_step step db) (failure "enqueue migration job") >>= λ _.
      elim (find (λ l. l.run_id == run && l.step_id == step) db.leases) [
        | none ↦
            ok (
              record db { leases = db.leases ++ new_lease fresh run step available now ∷ [] },
              fresh,
            )
        | some stored ↦ ok (
          record db {
            leases =
                update (λ l. l.run_id == run && l.step_id == step)
                  (λ l. record l {
                    available_at = least l.available_at available;
                    updated_at = now;
                  })
                  db.leases;
          },
          stored.id,
        )
      ]

-- `lease_expires_at >= now()`, which is not true of NULL.
abbrev pub is_live : ℕ → Lease → Bool
is_live now l = elim l.lease_expires_at [ none ↦ false | some t ↦ leb now t ]

abbrev pub owned : ℕ → String → Lease → Bool
owned lease owner l = l.id == lease && str_eq l.owner_id owner

-- One statement renews the lease and the attempt that it is for. The number of rows affected counts
-- the attempts alone, and the renewed lease stays renewed where that number is not 1.
unfoldable pub heartbeat : Db → ℕ → ℕ → String → ℕ → Db × Result (Unit {0})
heartbeat db now lease owner duration =
    elim (find (λ l. owned lease owner l && is_live now l) db.leases) [
      | none ↦ (db, err not_found)
      | some job ↦
          (let renewed = λ (a : Attempt). a.step_id == job.step_id && a.attempt == job.attempt in
            (
              record db {
                leases =
                    update (λ l. owned lease owner l && is_live now l)
                      (λ l. record l {
                        heartbeat_at = some now;
                        lease_expires_at = some (now + duration);
                        updated_at = now;
                      })
                      db.leases;
                attempts =
                    update renewed
                      (λ a. record a {
                        heartbeat_at = some now;
                        lease_expires_at = some (now + duration);
                      })
                      db.attempts;
              },
              require (length (select renewed db.attempts) == 1) not_found,
            ))
    ]

-- The job goes back to the queue, to be claimed again from a later time on.
unfoldable pub retry : Db → ℕ → ℕ → String → ℕ → String → Result Db
retry db now lease owner available message = do
  job ← or_fail (find (owned lease owner) db.leases) not_found
  let released : Db = record db {
    leases =
        update (owned lease owner)
          (λ l. record l {
            owner_id = "";
            lease_expires_at = none;
            heartbeat_at = none;
            available_at = available;
            updated_at = now;
          })
          db.leases;
  }
  let pending : Db =
      update_step job.step_id
        (λ s. record s {
          status = StepStatus.pending;
          summary = "retry scheduled";
          updated_at = now;
        })
        released
  let diagnosed : Db =
      update_attempt job.step_id job.attempt
        (λ a. record a {
          status = AttemptStatus.retry_scheduled;
          completed_at = some now;
          lease_expires_at = none;
          next_attempt_at = some available;
          error_code = "STEP_RETRY";
          error_message = message;
          diagnostic = message;
        })
        pending
  ok (
      insert_event job.run_id "STEP_RETRY_SCHEDULED" warning "Migration step retry was scheduled"
        (("stepId", id_value job.step_id)
          ∷ ("attempt", int_value job.attempt)
          ∷ ("availableAt", time_value available)
          ∷ ("reason", text_value message)
          ∷ [])
        now diagnosed)
