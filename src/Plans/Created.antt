-- ===== src/Plans/Created.antt =====
-- internal/migration/service.go: a plan that `Create` has made.
use k8s_migration.Base.{
  ℕ, ◌==◌, ◌≡◌, refl, false, not, arith, any, trim_space, ok, conflict, Ensures, succeeds, fails,
  require-Ensures, bind-Ensures, some, Result-cases, inl, inr,
}
use k8s_migration.Base.Orders.{find-new}
use k8s_migration.Migration.Model.{Plan, PlanStatus}
use k8s_migration.Migration.Plan.{validate}
use k8s_migration.Catalog.{Catalog}
use k8s_migration.Store.Tables.{find_plan}
use k8s_migration.Store.Tables.Rows.{Db}
use k8s_migration.Store.Runs.Plans.{create_plan, get_plan}
use k8s_migration.Plans.Service.{validate_references, create, get}

-- The plan is a draft that is found under its id, passes the check of a plan and has references that
-- fit together.
pub record IsCreated (c : Catalog) (id : ℕ) (out : Db × Plan) : Type 0 where
  pub is_draft : out.1.status ≡ PlanStatus.draft
  pub valid : validate out.1 ≡ ok tt
  pub fitting : validate_references c out.1 ≡ ok tt
  pub found : get out.0 id ≡ ok out.1

create_plan-Ensures :
    (db : Db) (plan : Plan)
    → Ensures (λ created. find_plan plan.id created ≡ some plan) (create_plan db plan)
unfolding create_plan
create_plan-Ensures db plan =
    require-Ensures (not (any (λ p. p.id == plan.id) db.plans)) conflict (λ free.
      succeeds
        (find-new (λ p. p.id == plan.id) db.plans plan (ground (arith, free)) (ground arith)))

-- A plan that is created is stored as a draft under the new id, is valid, and has references that are
-- there and fit together, where the id is not the nil UUID.
pub create-IsCreated :
    (c : Catalog) (db : Db) (id now : ℕ) (value : Plan)
    → (id == 0) ≡ false
    → Ensures (IsCreated c id) (create c db id now value)
unfolding create get get_plan validate validate_references
create-IsCreated c db id now value some_id =
    let draft = record value { id = id; name = trim_space value.name; status = PlanStatus.draft } in
    let stored = record draft { created_at = now; updated_at = now } in
    elim (Result-cases (validate draft)) [
      | inl (e, h) ↦ rw h fails
      | inr (_, h) ↦ elim (Result-cases (validate_references c draft)) [
        | inl (e, v) ↦ rw (h, v) fails
        | inr (_, v) ↦
            rw (h, v)
              (bind-Ensures (create_plan db stored) (create_plan-Ensures db stored)
                (λ created found. succeeds (record {
                  is_draft = refl;
                  valid = h;
                  fitting = v;
                  found = rw (some_id, found) refl;
                })))
      ]
    ]
