-- ===== src/Store/Jobs/Exclusive.antt =====
-- A claimed job against other workers (internal/repository/postgres/jobs.go, `Claim`).
use k8s_migration.Base.{
  ℕ, ◌+◌, ◌≤◌, ◌<◌, String, Bool, true, ◌≡◌, ◌≢◌, refl, sym, ap, ◌∙◌, inl, inr, ◌==◌, str_eq,
  Bool-cases, Option-cases, Result-cases, Option, List, [], ◌∷◌, some, none, All, arith, ok,
  Ensures, succeeds, fails, Ensures-ok, Ensures-mono, require-Ensures, invalid_transition, ◌||◌,
}
use mathlib.Core.Path.{subst}
use mathlib.Core.Option.{some-injective}
use k8s_migration.Base.Tables.{All-update}
use k8s_migration.Migration.Model.{Run, RunStatus, Step}
use k8s_migration.Migration.Transitions.{same_status, is_allowed, status_for_step}
use k8s_migration.Store.Tables.{first_by, find_run, find_step}
use k8s_migration.Store.Tables.Laws.{All-trivial}
use k8s_migration.Store.Tables.Rows.{Db, Lease, Claimed}
use k8s_migration.Store.Jobs.Claim.{
  is_claimable, earlier_job, claimable, next_job, take_lease, start_attempt, start_step,
  advance_run, begin_job, record_start, claimed, claim_job, claim,
}

-- What holds of all rows holds of the first one in an order.
pub first_by-All {ℓ κ} :
    {A : Type ℓ} (P : A → Type κ) (before : A → A → Bool) (xs : List A) (y : A)
    → All P xs
    → first_by before xs ≡ some y
    → P y
first_by-All P before [] y h e = absurd (ground arith)
first_by-All P before (x ∷ xs) y h e = elim (Option-cases (first_by before xs)) [
  | inl rest ↦ subst P (some-injective x y (rw rest at e)) h.0
  | inr (z, rest) ↦ elim (Bool-cases (before x z)) [
    | inl first ↦ subst P (some-injective x y (rw (rest, first) at e)) h.0
    | inr later ↦ first_by-All P before xs y h.1 (rest ∙ rw (rest, later) at e)
  ]
]

-- A claimable job is due, and its lease has run out.
claimable-All {κ} :
    (P : Lease → Type κ) (db : Db) (now : ℕ) (locked : ℕ → Bool) (ls : List Lease)
    → All P ls
    → All (λ l. (is_claimable db now locked l ≡ true) × P l) (claimable db now locked ls)
claimable-All P db now locked [] h = tt
claimable-All P db now locked (l ∷ ls) h = elim (Bool-cases (is_claimable db now locked l)) [
  | inl e ↦ rw e ((e, h.0), claimable-All P db now locked ls h.1)
  | inr e ↦ rw e (claimable-All P db now locked ls h.1)
]

claimable_expired :
    (db : Db) (now : ℕ) (locked : ℕ → Bool) (l : Lease) (t : ℕ)
    → is_claimable db now locked l ≡ true
    → l.lease_expires_at ≡ some t
    → t < now
claimable_expired db now locked l t h e = ground arith

-- The lease of a claimed job runs until the time that `Claim` has returned.
abbrev pub Held : Claimed → Db → Type 0
Held c db = All (λ l. l.id ≡ c.id → l.lease_expires_at ≡ some c.expires_at) db.leases

advance_run-leases :
    (run : Run) (target : RunStatus) (now : ℕ) (db : Db)
    → Ensures (λ db'. db'.leases ≡ db.leases) (advance_run run target now db)
unfolding advance_run
advance_run-leases run target now db = elim (Bool-cases (same_status run.status target)) [
  | inl e ↦ rw e (succeeds refl)
  | inr e ↦
      rw e (require-Ensures (is_allowed run.status target) invalid_transition (λ _. succeeds refl))
]

begin_job-Held :
    (db : Db) (now : ℕ) (owner : String) (expires : ℕ) (job : Lease)
    → All
        (λ l. l.id ≡ job.id → l.lease_expires_at ≡ some expires)
        (begin_job db now owner expires job).leases
unfolding begin_job start_step start_attempt take_lease
begin_job-Held db now owner expires job =
    All-update (λ _. Unit {0}) (λ l. l.id ≡ job.id → l.lease_expires_at ≡ some expires)
      (λ l. l.id == job.id) _ (λ l _ _ _. refl) (λ l other _ same. absurd (ground arith)) db.leases
      (All-trivial db.leases)

-- A claim that hands out a job: the job was the first claimable one, it is the worker's now, and its
-- step is of a type that the code knows.
pub record ClaimsJob (db : Db) (now : ℕ) (owner : String) (duration : ℕ) (job : Lease)
    (r : Db × Option Claimed) : Type 0 where
  pub step : Step
  pub run : Run
  pub target : RunStatus
  pub advanced : Db
  pub has_step : find_step job.step_id db ≡ some step
  pub has_run : find_run job.run_id (begin_job db now owner (now + duration) job) ≡ some run
  pub has_target : status_for_step step.type ≡ some target
  pub advances :
      advance_run run target now (begin_job db now owner (now + duration) job) ≡ ok advanced
  pub returns :
      r ≡ (record_start job step now advanced, some (claimed owner (now + duration) job step))

pub claim_job-ClaimsJob :
    (db : Db) (now : ℕ) (owner : String) (duration : ℕ) (job : Lease)
    → Ensures (ClaimsJob db now owner duration job) (claim_job db now owner duration job)
unfolding claim_job
claim_job-ClaimsJob db now owner duration job = elim (Option-cases (find_step job.step_id db)) [
  | inl e ↦ rw e fails
  | inr (step, e) ↦
      rw e
        (elim (Option-cases (find_run job.run_id (begin_job db now owner (now + duration) job))) [
          | inl missing ↦ rw missing fails
          | inr (run, r) ↦ rw r (elim (Option-cases (status_for_step step.type)) [
            | inl unknown ↦ rw unknown fails
            | inr (target, t) ↦
                rw t
                  (elim (Result-cases
                    (advance_run run target now (begin_job db now owner (now + duration) job))) [
                      | inl (x, a) ↦ rw a fails
                      | inr (advanced, a) ↦ rw a (
                          succeeds (record {
                            step = step;
                            run = run;
                            target = target;
                            advanced = advanced;
                            has_step = e;
                            has_run = r;
                            has_target = t;
                            advances = a;
                            returns = refl;
                          }))
                    ])
          ])
        ])
]

-- The answer of `Claim`: no job, or the first claimable one.
abbrev pub ClaimsNext : Db → ℕ → (ℕ → Bool) → String → ℕ → Db × Option Claimed → Type 0
ClaimsNext db now locked owner duration (db', none) = Unit
ClaimsNext db now locked owner duration (db', some c) =
    (job : Lease) × (next_job db now locked ≡ some job)
    × ClaimsJob db now owner duration job (db', some c)

ClaimsJob-ClaimsNext :
    (db : Db) (now : ℕ) (locked : ℕ → Bool) (owner : String) (duration : ℕ) (job : Lease)
    → next_job db now locked ≡ some job
    → (r : Db × Option Claimed) → ClaimsJob db now owner duration job r
    → ClaimsNext db now locked owner duration r
ClaimsJob-ClaimsNext db now locked owner duration job e (db', none) k = tt
ClaimsJob-ClaimsNext db now locked owner duration job e (db', some c) k = (job, e, k)

pub claim-ClaimsNext :
    (db : Db) (now : ℕ) (locked : ℕ → Bool) (owner : String) (duration : ℕ)
    → Ensures (ClaimsNext db now locked owner duration) (claim db now locked owner duration)
unfolding claim
claim-ClaimsNext db now locked owner duration =
    elim (Bool-cases (str_eq owner "" || duration == 0)) [
      | inl bad ↦ rw bad fails
      | inr good ↦ rw good (elim (Option-cases (next_job db now locked)) [
        | inl e ↦ rw e (succeeds tt)
        | inr (job, e) ↦ rw e (
            Ensures-mono (ClaimsJob-ClaimsNext db now locked owner duration job e)
              (claim_job-ClaimsJob db now owner duration job))
      ])
    ]

abbrev HeldBy : Db × Option Claimed → Type 0
HeldBy (db, none) = Unit
HeldBy (db, some c) = Held c db

-- Until then the claimed job has no free lease.
claim-Held :
    (db : Db) (now : ℕ) (owner : String) (duration : ℕ) (job : Lease) (r : Db × Option Claimed)
    → ClaimsJob db now owner duration job r
    → HeldBy r
unfolding record_start claimed
claim-Held db now owner duration job r k = subst HeldBy (sym k.returns) (
    subst (All (λ l. l.id ≡ job.id → l.lease_expires_at ≡ some (now + duration)))
      (sym (
        Ensures-ok
          (advance_run-leases k.run k.target now (begin_job db now owner (now + duration) job))
          k.advances))
      (begin_job-Held db now owner (now + duration) job))

-- A claimed job has the id of the queue's.
ClaimsJob-id :
    (db : Db) (now : ℕ) (owner : String) (duration : ℕ) (job : Lease) (db' : Db) (c : Claimed)
    → ClaimsJob db now owner duration job (db', some c)
    → c.id ≡ job.id
unfolding claimed
ClaimsJob-id db now owner duration job db' c k = ap id_of k.returns
  where
    id_of : Db × Option Claimed → ℕ
    id_of (d, none) = c.id
    id_of (d, some x) = x.id

-- After a claim has handed out a job, a claim on the state that it leaves hands out another job,
-- whichever worker asks, as long as the lease runs.
pub claim_exclusive :
    (db db' db'' : Db) (now later : ℕ) (locked locked' : ℕ → Bool) (owner owner' : String)
    (duration duration' : ℕ) (c c' : Claimed)
    → claim db now locked owner duration ≡ ok (db', some c)
    → later ≤ c.expires_at
    → claim db' later locked' owner' duration' ≡ ok (db'', some c')
    → c'.id ≢ c.id
unfolding next_job
claim_exclusive db db' db'' now later locked locked' owner owner' duration duration' c c' h le g
      same =
    let (_, _, first) = Ensures-ok (claim-ClaimsNext db now locked owner duration) h in
    let (job, next, second) = Ensures-ok (claim-ClaimsNext db' later locked' owner' duration') g in
    let held : Held c db' = claim-Held db now owner duration _ (db', some c) first in
    let (free, runs) =
      first_by-All
        (λ l.
          (is_claimable db' later locked' l ≡ true)
          × (l.id ≡ c.id → l.lease_expires_at ≡ some c.expires_at))
        earlier_job (claimable db' later locked' db'.leases) job
        (claimable-All (λ l. l.id ≡ c.id → l.lease_expires_at ≡ some c.expires_at) db' later locked'
          db'.leases held)
        next in
    let expires : job.lease_expires_at ≡ some c.expires_at =
      runs (sym (ClaimsJob-id db' later owner' duration' job db'' c' second) ∙ same) in
    omega (arith, le, claimable_expired db' later locked' job c.expires_at free expires)
