-- ===== src/Store/Runs/Numbers.antt =====
-- internal/repository/postgres/migration.go: the numbers of the runs of a plan.
use k8s_migration.Base.{
  Bool-cases, inl, inr, none, suc, refl, ◌∙◌, ◌++◌, ◌||◌, ◌&&◌, not, any, if◌then◌else◌, conflict,
  not_found, Ensures, succeeds, fails, Ensures-mono, require-Ensures, bind-Ensures, or_fail-Ensures,
  ◌+◌, ℕ, ◌≤◌, ◌<◌, ◌≡◌, Bool, ◌==◌, true, ==_iff, select, List, [], ◌∷◌, All, arith,
}
use k8s_migration.Base.Tables.{All-mono}
use k8s_migration.Migration.Model.{Run, RunStatus, Step}
use k8s_migration.Store.Tables.{find_plan, insert_step, insert_lease}
use k8s_migration.Store.Tables.Laws.{insert_step-runs, insert_lease-runs}
use k8s_migration.Store.Tables.Rows.{Db}
use k8s_migration.Store.Runs.Schedule.{
  last_number, next_number, is_schedulable, insert_run, stored_step, store_steps, start_run,
  schedule_run,
}

All-select_of {ℓ κ} :
    {A : Type ℓ} (P : A → Type κ) (p : A → Bool) (x : A) (xs : List A)
    → (p x ≡ true → P x)
    → All P (select p xs)
    → All P (select p (x ∷ xs))
All-select_of P p x xs first rest = elim (Bool-cases (p x)) [
  | inl e ↦ rw e (first e, rest)
  | inr e ↦ rw e rest
]

last_number-All :
    (plan : ℕ) (rs : List Run)
    → All (λ r. r.run_number ≤ last_number plan rs) (select (λ r. r.plan_id == plan) rs)
last_number-All plan [] = tt
last_number-All plan (r ∷ rs) =
    let later : All (λ x. x.run_number ≤ last_number plan (r ∷ rs))
        (select (λ x. x.plan_id == plan) rs) =
      All-mono (λ x. x.run_number ≤ last_number plan rs)
        (λ x. x.run_number ≤ last_number plan (r ∷ rs)) (λ x h. ground (arith, h))
        (select (λ x. x.plan_id == plan) rs) (last_number-All plan rs) in
    let bound : r.plan_id ≡ plan → r.run_number ≤ last_number plan (r ∷ rs) =
      λ e. ground (arith, e) in
    All-select_of (λ x. x.run_number ≤ last_number plan (r ∷ rs)) (λ x. x.plan_id == plan) r rs
      (λ e. bound ((==_iff r.plan_id plan).0 e)) later

-- The number of a new run is larger than that of every run of the plan, deleted ones included.
pub next_number-fresh :
    (plan : ℕ) (db : Db)
    → All (λ r. r.run_number < next_number plan db) (select (λ r. r.plan_id == plan) db.runs)
unfolding next_number
next_number-fresh plan db =
    All-mono (λ r. r.run_number ≤ last_number plan db.runs)
      (λ r. r.run_number < last_number plan db.runs + 1) (λ r h. omega (arith, h))
      (select (λ r. r.plan_id == plan) db.runs) (last_number-All plan db.runs)

insert_run-runs :
    (new : Run) (db : Db) → Ensures (λ db'. db'.runs ≡ db.runs ++ new ∷ []) (insert_run new db)
unfolding insert_run
insert_run-runs new db =
    require-Ensures
      (not (
        any (λ r. r.id == new.id || (r.plan_id == new.plan_id && r.run_number == new.run_number))
          db.runs))
      conflict (λ _. succeeds refl)

store_steps-runs :
    (run now : ℕ) (new_id : ℕ → ℕ) (index : ℕ) (steps : List Step) (db : Db)
    → Ensures (λ db'. db'.runs ≡ db.runs) (store_steps run now new_id index steps db)
unfolding store_steps
store_steps-runs run now new_id index [] db = succeeds refl
store_steps-runs run now new_id index (step ∷ steps) db =
    bind-Ensures (insert_step (stored_step run now new_id index step) db)
      (insert_step-runs (stored_step run now new_id index step) db)
      (λ next same.
        Ensures-mono (λ last h. h ∙ same) (store_steps-runs run now new_id (suc index) steps next))

start_run-runs :
    (run : Run) (now db_now lease first : ℕ) (db : Db)
    → Ensures (λ db'. db'.runs ≡ db.runs) (start_run run now db_now lease first db)
unfolding start_run
start_run-runs run now db_now lease first db =
    bind-Ensures (insert_lease lease run.id first db_now db_now db)
      (insert_lease-runs lease run.id first db_now db_now db) (λ queued same. succeeds same)

-- The run with its number.
abbrev numbered : Db → ℕ → Run → Run
numbered db clock run = record run {
  run_number = next_number run.plan_id db;
  status = RunStatus.pending;
  progress = 0;
  created_at = if run.created_at == 0 then clock else run.created_at;
  updated_at = if run.created_at == 0 then clock else run.created_at;
}

-- The row of a run that has been scheduled.
abbrev pub scheduled_row : Run → Run
scheduled_row run = record run { started_at = none; completed_at = none; deleted_at = none }

-- A run that is scheduled keeps its id and its plan, is inserted behind the runs that are there, and gets a number that is larger than that of every run of its plan, deleted ones included.
pub schedule_run-fresh :
    (db : Db) (clock db_now : ℕ) (new_id : ℕ → ℕ) (lease : ℕ) (run : Run) (steps : List Step)
    (retry : Bool)
    → Ensures
        (λ answer.
          (answer.1.id ≡ run.id)
          × (answer.1.plan_id ≡ run.plan_id)
          × (answer.0.runs ≡ db.runs ++ scheduled_row answer.1 ∷ [])
          × All
              (λ r. r.run_number < answer.1.run_number)
              (select (λ r. r.plan_id == run.plan_id) db.runs))
        (schedule_run db clock db_now new_id lease run steps retry)
unfolding schedule_run
schedule_run-fresh db clock db_now new_id lease run [] retry = fails
schedule_run-fresh db clock db_now new_id lease run (first ∷ rest) retry =
    elim (Bool-cases (run.id == 0 || run.plan_id == 0)) [
      | inl e ↦ rw e fails
      | inr e ↦ rw e (
          or_fail-Ensures (find_plan run.plan_id db) not_found (λ plan _.
            require-Ensures (is_schedulable retry plan.status) conflict (λ _.
              bind-Ensures _ (insert_run-runs _ db) (λ inserted rows.
                bind-Ensures _ (store_steps-runs run.id _ new_id 0 (first ∷ rest) inserted)
                  (λ stored kept.
                    bind-Ensures _ (start_run-runs (numbered db clock run) _ db_now lease _ stored)
                      (λ started same.
                        succeeds
                          (refl, refl, same ∙ (kept ∙ rows), next_number-fresh run.plan_id db)))))))
    ]
