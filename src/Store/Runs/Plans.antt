-- ===== src/Store/Runs/Plans.antt =====
-- internal/repository/postgres/migration.go: `CreatePlan`, `GetPlan`, `ListPlans` and
-- `UpdatePlanStatus`. The encoding of the strategy and of the policy as JSON is left out.
use k8s_migration.Base.{
  ℕ, Bool, true, false, ◌&&◌, ◌||◌, none, some, List, [], ◌∷◌, ◌++◌, ◌==◌, ltb, leb, if◌then◌else◌,
  any, find, order_by, Result, ok, err, not_found, conflict, or_fail, require, not, ◌>>◌,
}
use k8s_migration.Migration.Model.{Plan, PlanStatus}
use k8s_migration.Store.Tables.{find_plan, update_plan}
use k8s_migration.Store.Tables.Rows.{Db}

-- INSERT INTO migration_plans: the key is unique.
unfoldable pub create_plan : Db → Plan → Result Db
create_plan db plan = do
  require (not (any (λ p. p.id == plan.id) db.plans)) conflict
  ok (record db { plans = db.plans ++ plan ∷ [] })

unfoldable pub get_plan : Db → ℕ → Result Plan
get_plan db id = or_fail (find_plan id db) not_found

-- ORDER BY created_at DESC,id DESC
abbrev pub later_plan : Plan → Plan → Bool
later_plan a b = ltb b.created_at a.created_at || (a.created_at == b.created_at && leb b.id a.id)

unfoldable pub list_plans : Db → List Plan
list_plans db = order_by later_plan db.plans

-- `status IN ('DRAFT','READY','BLOCKED')`
abbrev pub is_editable : PlanStatus → Bool
is_editable PlanStatus.draft = true
is_editable PlanStatus.ready = true
is_editable PlanStatus.blocked = true
is_editable _ = false

unfoldable pub update_plan_status : Db → ℕ → ℕ → PlanStatus → Result Db
update_plan_status db now id status =
    elim (find (λ p. p.id == id && is_editable p.status) db.plans) [
      | some _ ↦ ok (
          update_plan id
            (λ p.
              if is_editable p.status then record p { status = status; updated_at = now } else p)
            db)
      | none ↦ err (if any (λ p. p.id == id) db.plans then conflict else not_found)
    ]
