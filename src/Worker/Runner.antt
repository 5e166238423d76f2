-- ===== src/Worker/Runner.antt =====
-- internal/worker/runner.go: `NewRunner`, `processOne` and `heartbeat`. The handler of a step runs
-- while the heartbeats do: what it does to the state is a part of each tick. Logging is left out,
-- and the outcome is what the observer is told.
use k8s_migration.Base.{
  ℕ, ◌+◌, String, Bool, true, false, not, ◌||◌, Option, none, some, List, [], ◌∷◌, ◌==◌, leb,
  str_eq, if◌then◌else◌, Result, ok, err, failure, require, ◌>>◌,
}
use k8s_migration.Migration.Model.{StepType}
use k8s_migration.Store.Tables.Rows.{Claimed}
use k8s_migration.Worker.Store.{JobStore}

pub record Config : Type 0 where
  pub owner_id : String
  pub poll_interval : ℕ
  pub heartbeat_interval : ℕ
  pub lease_duration : ℕ
  pub retry_delay : ℕ
  pub max_attempts : ℕ

-- An interval that is not positive is 0, and so is a number of attempts.
unfoldable pub new_runner : Config → Result Config
new_runner config = do
  require
      (not (
        str_eq config.owner_id ""
        || (config.poll_interval == 0
            || (config.heartbeat_interval == 0
                || (config.lease_duration == 0 || config.retry_delay == 0)))))
      (failure "worker owner and positive timing configuration are required")
  require (not (leb config.lease_duration config.heartbeat_interval))
      (failure "worker heartbeat interval must be shorter than lease duration")
  ok (if config.max_attempts == 0 then record config { max_attempts = 5 } else config)

-- What `processOne` does with a job, or that there is none.
pub data Outcome : Type 0 where
  claim_error idle lease_lost store_error failed retried success : Outcome

-- What a handler returns: nothing, or the text of its error.
abbrev pub HandlerResult : Type 0
HandlerResult = Option String

-- The handlers by step type. A type that has none fails with `ErrNoHandler`.
abbrev pub run_handler : (StepType → Option (Claimed → HandlerResult)) → Claimed → HandlerResult
run_handler handlers lease = elim (handlers lease.step_type) [
  | none ↦ some "no migration step handler registered"
  | some handle ↦ handle lease
]

-- A tick of the heartbeat's ticker: what has happened to the state since the last one, and the
-- store at this time.
pub record Tick (S : Type 0) : Type 0 where
  pub since : S → S
  pub store : JobStore S

module _ {S : Type 0} where
  -- The loop renews the lease at each tick until one fails, which cancels the handler.
  unfoldable pub heartbeat_loop : Config → Claimed → List (Tick S) → S → Bool × S
  heartbeat_loop config lease [] s = (true, s)
  heartbeat_loop config lease (tick ∷ ticks) s =
      let (r, s') =
        tick.store.heartbeat_job lease.id config.owner_id config.lease_duration (tick.since s) in
      let rest = heartbeat_loop config lease ticks s' in
      elim r [ ok _ ↦ rest | err _ ↦ (false, s') ]

  abbrev reported : Outcome → Result (Unit {0}) × S → Outcome × S
  reported outcome (ok _, s) = (outcome, s)
  reported outcome (err _, s) = (store_error, s)

  -- The end of a job, once the handler has returned and the lease was kept.
  unfoldable pub settle : Config → JobStore S → ℕ → Claimed → HandlerResult → S → Outcome × S
  settle config store now lease none s =
      reported success (store.complete_job lease.id config.owner_id s)
  settle config store now lease (some message) s =
      if leb config.max_attempts lease.attempt
      then reported failed (store.fail_job lease.id config.owner_id message s)
      else reported retried
          (store.retry_job lease.id config.owner_id (now + config.retry_delay) message s)

  abbrev settle_kept : Config → JobStore S → ℕ → Claimed → HandlerResult → Bool × S → Outcome × S
  settle_kept config store now lease result (true, s) = settle config store now lease result s
  settle_kept config store now lease result (false, s) = (lease_lost, s)

  abbrev process_claimed :
      Config
      → (StepType → Option (Claimed → HandlerResult))
      → List (Tick S)
      → JobStore S
      → ℕ
      → Result (Option Claimed) × S
      → Outcome × S
  process_claimed config handlers ticks last now (err _, s) = (claim_error, s)
  process_claimed config handlers ticks last now (ok none, s) = (idle, s)
  process_claimed config handlers ticks last now (ok (some lease), s) =
      settle_kept config last now lease (run_handler handlers lease)
        (heartbeat_loop config lease ticks s)

  -- `first` is the store when the job is claimed, `last` when it is settled, at time `now`.
  unfoldable pub process_one :
      Config
      → (StepType → Option (Claimed → HandlerResult))
      → JobStore S
      → List (Tick S)
      → JobStore S
      → ℕ
      → S
      → Outcome × S
  unfolding heartbeat_loop settle
  process_one config handlers first ticks last now s =
      process_claimed config handlers ticks last now
        (first.claim_job config.owner_id config.lease_duration s)
