-- ===== src/Plans/Decision.antt =====
-- internal/migration/service.go: what `Preflight` decides of a plan, and what it stores.
use k8s_migration.Base.{
  ℕ, ◌==◌, ◌≡◌, ◌≢◌, refl, ap, ◌∙◌, Bool, true, not, ◌&&◌, some, List, [], ◌∷◌, arith,
  if◌then◌else◌, find, ok, not_found, invalid_input, Ensures, succeeds, fails, require-Ensures,
  bind-Ensures, or_fail-Ensures, Bool-cases, Option-cases, Result-cases, inl, inr,
}
use mathlib.Core.Option.{some-injective}
use k8s_migration.Base.Tables.{Distinct, find-some, find-update}
use k8s_migration.Migration.Model.{Plan, PlanStatus}
use k8s_migration.Catalog.{Catalog}
use k8s_migration.Store.Tables.{find_plan}
use k8s_migration.Store.Tables.Rows.{Db}
use k8s_migration.Store.Runs.Plans.{get_plan, is_editable, update_plan_status}
use k8s_migration.Plans.Service.{
  References, references, validate_reference_values, PreflightResult, checks_of, result_of,
  preflight,
}
use k8s_migration.Plans.Gate.{gate}
use k8s_migration.Plans.Ready.{result_of-ready}

abbrev pub verdict : Bool → PlanStatus
verdict ready = if ready then PlanStatus.ready else PlanStatus.blocked

-- The plan was stored, its references were found and fit, and the answer and the stored status are those
-- of the gate.
pub record Decided (c : Catalog) (db : Db) (id : ℕ) (out : Db × PreflightResult) : Type 0 where
  pub plan : Plan
  pub found : find_plan id db ≡ some plan
  pub refs : References
  pub resolved : references c plan ≡ ok refs
  pub valid : validate_reference_values refs ≡ ok tt
  pub answer : out.1.ready ≡ gate plan refs
  pub after : Plan
  pub stored : find_plan id out.0 ≡ some after
  pub decided : after.status ≡ verdict (gate plan refs)

-- The row under a key passes the further test of a row under this key, as there is one such row only.
find-both :
    {A : Type 0} (key : A → ℕ) (k : ℕ) (q : A → Bool) (xs : List A) (y z : A)
    → Distinct key xs
    → find (λ x. key x == k) xs ≡ some y
    → find (λ x. key x == k && q x) xs ≡ some z
    → q y ≡ true
find-both key k q [] y z d e h = absurd (ground arith)
find-both key k q (x ∷ xs) y z d e h = elim (Bool-cases (key x == k)) [
  | inr t ↦ find-both key k q xs y z d.1 (rw t at e) (rw t at h)
  | inl t ↦
      let same : x ≡ y = some-injective x y (rw t at e) in
      elim (Bool-cases (q x)) [
        | inl n ↦ rw (← same) n
        | inr n ↦
            let later : find (λ x. key x == k && q x) xs ≡ some z = rw (t, n) at h in
            let other = find-some (λ w. key w ≢ key x) (λ x. key x == k && q x) xs z later d.0 in
            absurd (ground (arith, other.0, other.1, t))
      ]
]

update_plan_status-Ensures :
    (db : Db) (now id : ℕ) (status : PlanStatus) (plan : Plan)
    → Distinct (λ p. p.id) db.plans
    → find_plan id db ≡ some plan
    → Ensures
        (λ updated. (after : Plan) × (find_plan id updated ≡ some after) × (after.status ≡ status))
        (update_plan_status db now id status)
unfolding update_plan_status
update_plan_status-Ensures db now id status plan d e =
    elim (Option-cases (find (λ p. p.id == id && is_editable p.status) db.plans)) [
      | inl h ↦ rw (h, update_plan_status) fails
      | inr (z, h) ↦
          let editable =
            find-both (λ p. p.id) id (λ p. is_editable p.status) db.plans plan z d e h in
          let change = λ (p : Plan).
            if is_editable p.status then record p { status = status; updated_at = now } else p in
          rw (h, update_plan_status)
            (succeeds (
              change plan,
              find-update (λ p. p.id) id change (λ p. ground arith) db.plans plan e,
              rw editable refl,
            ))
    ]

-- A preflight that succeeds answers that the plan is ready exactly where its references pass the gate,
-- and stores the plan as READY then and as BLOCKED otherwise, where no two plans have one id.
pub preflight-Decided :
    (c : Catalog) (db : Db) (now id : ℕ)
    → Distinct (λ p. p.id) db.plans
    → Ensures (Decided c db id) (preflight c db now id)
unfolding preflight get_plan
preflight-Decided c db now id d =
    require-Ensures (not (id == 0)) (invalid_input "planId is required") (λ _.
      or_fail-Ensures (find_plan id db) not_found (λ plan found.
        elim (Result-cases (references c plan)) [
          | inl (e, h) ↦ rw h fails
          | inr (refs, h) ↦ rw h (elim (Result-cases (validate_reference_values refs)) [
            | inl (e, v) ↦ rw v fails
            | inr (_, v) ↦
                let result = result_of id (checks_of plan refs) in
                rw v (
                  bind-Ensures (update_plan_status db now id (verdict result.ready))
                    (update_plan_status-Ensures db now id (verdict result.ready) plan d found)
                    (λ updated (after, stored, status). succeeds (record {
                      plan = plan;
                      found = found;
                      refs = refs;
                      resolved = h;
                      valid = v;
                      answer = result_of-ready plan refs id;
                      after = after;
                      stored = stored;
                      decided = status ∙ ap verdict (result_of-ready plan refs id);
                    })))
          ])
        ]))
