-- ===== src/Store/Tables/Laws.antt =====
-- What the queries of the tables answer.
use k8s_migration.Base.{
  ℕ, ◌≡◌, ◌==◌, ==_iff, List, [], ◌∷◌, some, All, refl, sym, not, Ensures, succeeds,
  require-Ensures, failure,
}
use mathlib.Core.Path.{subst}
use k8s_migration.Base.Tables.{find-some}
use k8s_migration.Migration.Model.{Run, Step}
use k8s_migration.Store.Tables.{
  find_run, find_step, step_taken, insert_step, lease_taken, insert_lease,
}
use k8s_migration.Store.Tables.Rows.{Db}

pub All-trivial {ℓ} : {A : Type ℓ} (xs : List A) → All (λ _. Unit {0}) xs
All-trivial [] = tt
All-trivial (x ∷ xs) = (tt, All-trivial xs)

pub find_run-id : (id : ℕ) (db : Db) (run : Run) → find_run id db ≡ some run → run.id ≡ id
find_run-id id db run e =
    (==_iff run.id id).0
      (find-some (λ _. Unit {0}) (λ r. r.id == id) db.runs run e (All-trivial db.runs)).0

pub find_step-id : (id : ℕ) (db : Db) (step : Step) → find_step id db ≡ some step → step.id ≡ id
find_step-id id db step e =
    (==_iff step.id id).0
      (find-some (λ _. Unit {0}) (λ s. s.id == id) db.steps step e (All-trivial db.steps)).0

pub insert_step-runs :
    (new : Step) (db : Db) → Ensures (λ db'. db'.runs ≡ db.runs) (insert_step new db)
unfolding insert_step
insert_step-runs new db =
    require-Ensures (not (step_taken new db)) (failure "duplicate key in migration_steps")
      (λ _. succeeds refl)

pub insert_lease-runs :
    (id run step available now : ℕ) (db : Db)
    → Ensures (λ db'. db'.runs ≡ db.runs) (insert_lease id run step available now db)
unfolding insert_lease
insert_lease-runs id run step available now db =
    require-Ensures (not (lease_taken id run step db)) (failure "duplicate key in job_leases")
      (λ _. succeeds refl)

-- A run that is found is found by its own id.
pub find_run-own :
    (id : ℕ) (db : Db) (run : Run) → find_run id db ≡ some run → find_run run.id db ≡ some run
find_run-own id db run e = subst (λ k. find_run k db ≡ some run) (sym (find_run-id id db run e)) e
