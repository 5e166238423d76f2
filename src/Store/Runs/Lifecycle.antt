-- ===== src/Store/Runs/Lifecycle.antt =====
-- The status of a run against the transition table: the statements that change it.
pub mod Jobs
pub mod Admin
pub mod Completion
pub mod History
use k8s_migration.Base.{
  ℕ, Bool, true, false, not, ◌≡◌, refl, ==_iff, sym, ◌∙◌, ap, ◌==◌, ◌||◌, ◌&&◌, inl, inr,
  Bool-cases, Option-cases, Result-cases, List, [], ◌∷◌, ◌++◌, some, none, find, update, select,
  arith, String, Option, Result, ok, err, Ensures, succeeds, fails, Ensures-ok, Ensures-mono,
  require-Ensures, conflict, invalid_transition,
}
use mathlib.Core.Option.{some-injective}
use mathlib.Core.Path.{subst}
use k8s_migration.Base.Tables.{find-update, find-append}
use k8s_migration.Migration.Model.{Run, RunStatus}
use k8s_migration.Migration.Transitions.{same_status, is_allowed}
use k8s_migration.Store.Tables.{find_run, update_run}
use k8s_migration.Store.Tables.Laws.{find_run-id}
use k8s_migration.Store.Tables.Rows.{Db}

-- A status that is kept, or changed by a transition of the table.
abbrev pub Advances : RunStatus → RunStatus → Type 0
Advances from to = (same_status from to || is_allowed from to) ≡ true

pub allowed-Advances : (from to : RunStatus) → is_allowed from to ≡ true → Advances from to
allowed-Advances from to h = ground (arith, h)

-- Every run is there afterwards, and has kept its status or changed it as is allowed.
abbrev pub LawfulIn : (RunStatus → RunStatus → Bool) → List Run → List Run → Type 0
LawfulIn allowed rs rs' =
    (id : ℕ) (run : Run)
    → find (λ r. r.id == id) rs ≡ some run
    → (run' : Run) × (find (λ r. r.id == id) rs' ≡ some run')
      × ((same_status run.status run'.status || allowed run.status run'.status) ≡ true)

-- Every run is there afterwards, and has kept its status or advanced.
abbrev pub Lawful : List Run → List Run → Type 0
Lawful rs rs' = LawfulIn is_allowed rs rs'

pub Lawful-refl : (rs : List Run) → Lawful rs rs
Lawful-refl rs id run e = (run, e, (ground arith))

pub Lawful-append : (rs : List Run) (new : Run) → Lawful rs (rs ++ new ∷ [])
Lawful-append rs new id run e =
    (run, find-append (λ r. r.id == id) rs (new ∷ []) run e, (ground arith))

module _ (k : ℕ) (f : Run → Run) (keep : (r : Run) → (f r).id ≡ r.id) where
  -- An update of one run leaves the others as they are.
  find-elsewhere :
      (id : ℕ) (rs : List Run)
      → (id == k) ≡ false
      → find (λ r. r.id == id) (update (λ r. r.id == k) f rs) ≡ find (λ r. r.id == id) rs
  find-elsewhere id [] other = refl
  find-elsewhere id (r ∷ rs) other = ground (arith, keep r, find-elsewhere id rs other, other)

module _ (allowed : RunStatus → RunStatus → Bool) (k : ℕ) (f : Run → Run)
    (keep : (r : Run) → (f r).id ≡ r.id) where
  -- An update that advances the run it finds is lawful.
  pub update-LawfulIn :
      (rs : List Run)
      → ((run : Run)
          → find (λ r. r.id == k) rs ≡ some run
          → (same_status run.status (f run).status || allowed run.status (f run).status) ≡ true)
      → LawfulIn allowed rs (update (λ r. r.id == k) f rs)
  update-LawfulIn rs advances id before b = elim (Bool-cases (id == k)) [
    | inl same ↦
        (let here : id ≡ k = (==_iff id k).0 same in
          let found : find (λ r. r.id == k) rs ≡ some before = rw here at b in
          (
            f before,
            rw here (find-update (λ r. r.id) k f keep rs before found),
            advances before found,
          ))
    | inr other ↦ (before, find-elsewhere k f keep id rs other ∙ b, (ground arith))
  ]

pub update-Lawful :
    (k : ℕ) (f : Run → Run)
    → ((r : Run) → (f r).id ≡ r.id)
    → (rs : List Run) (run : Run) → find (λ r. r.id == k) rs ≡ some run
    → Advances run.status (f run).status
    → Lawful rs (update (λ r. r.id == k) f rs)
update-Lawful k f keep rs run e advances = update-LawfulIn is_allowed k f keep rs (λ before b.
    subst (λ r. Advances r.status (f r).status) (some-injective run before (sym e ∙ b)) advances)

-- Two updates of one run are lawful together.
pub update_twice-LawfulIn :
    (allowed : RunStatus → RunStatus → Bool) (k : ℕ) (f g : Run → Run)
    → ((r : Run) → (f r).id ≡ r.id)
    → ((r : Run) → (g r).id ≡ r.id)
    → (rs : List Run)
    → ((run : Run)
        → find (λ r. r.id == k) rs ≡ some run
        → (same_status run.status (g (f run)).status || allowed run.status (g (f run)).status)
          ≡ true)
    → LawfulIn allowed rs (update (λ r. r.id == k) g (update (λ r. r.id == k) f rs))
update_twice-LawfulIn allowed k f g keep keep' rs advances id before b =
    elim (Bool-cases (id == k)) [
      | inl same ↦
          (let here : id ≡ k = (==_iff id k).0 same in
            let found : find (λ r. r.id == k) rs ≡ some before = rw here at b in
            let once = find-update (λ r. r.id) k f keep rs before found in
            (
              g (f before),
              rw here (
                  find-update (λ r. r.id) k g keep' (update (λ r. r.id == k) f rs) (f before) once),
              advances before found,
            ))
      | inr other ↦ (
        before,
        find-elsewhere k g keep' id (update (λ r. r.id == k) f rs) other
            ∙ find-elsewhere k f keep id rs other
            ∙ b,
        (ground arith),
      )
    ]
