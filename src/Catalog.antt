-- ===== src/Catalog.antt =====
-- internal/repository/postgres: the tables that the plan and the assessment service read
-- (environment.go, application.go, mapping.go) and the table of assessments (assessment.go). The
-- encoding of columns as JSON is left out.
use k8s_migration.Base.{
  ℕ, String, Bool, not, ◌&&◌, ◌||◌, List, [], ◌∷◌, ◌++◌, ◌==◌, leb, str_eq, str_ltb, any, find,
  select, order_by, Result, ok, not_found, conflict, or_fail, require, ◌>>=◌, ◌>>◌,
}
use k8s_migration.Environment.{Environment}
use k8s_migration.Application.{SourceApplication}
use k8s_migration.Mapping.Profile.{Profile}
use k8s_migration.Assessment.Model.{Assessment, Issue}
use k8s_migration.Assessment.Engine.{severity_text, category_text}

-- An assessment is stored without its issues, which have a table of their own.
pub record Catalog : Type 0 where
  pub environments : List Environment
  pub applications : List SourceApplication
  pub profiles : List Profile
  pub assessments : List Assessment
  pub issues : List Issue

unfoldable pub get_environment : Catalog → ℕ → Result Environment
get_environment c id = or_fail (find (λ e. e.id == id) c.environments) not_found

unfoldable pub get_application : Catalog → ℕ → Result SourceApplication
get_application c id = or_fail (find (λ a. a.id == id) c.applications) not_found

unfoldable pub get_profile : Catalog → ℕ → Result Profile
get_profile c id = or_fail (find (λ p. p.id == id) c.profiles) not_found

-- The order of two rows of texts, and of their numbers where the texts agree.
abbrev in_order : List String → List String → ℕ → ℕ → Bool
in_order [] _ m n = leb m n
in_order (s ∷ ss) [] m n = leb m n
in_order (s ∷ ss) (t ∷ ts) m n =
    let rest = in_order ss ts m n in str_ltb s t || (str_eq s t && rest)

abbrev issue_columns : Issue → List String
issue_columns i =
    severity_text i.severity
    ∷ category_text i.category
    ∷ i.rule_id
    ∷ i.resource_kind
    ∷ i.resource_namespace
    ∷ i.resource_name
    ∷ []

-- ORDER BY severity,category,rule_id,resource_kind,resource_namespace,resource_name,id
abbrev pub earlier_issue : Issue → Issue → Bool
earlier_issue a b = in_order (issue_columns a) (issue_columns b) a.id b.id

unfoldable pub insert_issues : ℕ → List Issue → List Issue → Result (List Issue)
insert_issues assessment [] rows = ok rows
insert_issues assessment (i ∷ is) rows =
    let rest =
      insert_issues assessment is (rows ++ (record i { assessment_id = assessment }) ∷ []) in
    do require (not (any (λ row. row.id == i.id) rows)) conflict; rest

-- The key is unique, and the application is there.
unfoldable pub create_assessment : Catalog → Assessment → Result Catalog
unfolding insert_issues
create_assessment c value = do
  require (not (any (λ a. a.id == value.id) c.assessments)) conflict
  require (any (λ a. a.id == value.application_id) c.applications) conflict
  rows ← insert_issues value.id value.issues c.issues
  ok (record c {
    assessments = c.assessments ++ (record value { issues = [] }) ∷ [];
    issues = rows;
  })

unfoldable pub get_assessment : Catalog → ℕ → Result Assessment
get_assessment c id = do
  value ← or_fail (find (λ a. a.id == id) c.assessments) not_found
  ok (record value {
    issues = order_by earlier_issue (select (λ i. i.assessment_id == id) c.issues);
  })
