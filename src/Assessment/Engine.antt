-- ===== src/Assessment/Engine.antt =====
-- internal/assessment/engine.go: rules and their findings, the engine and its assessment of an
-- application. `sort` is `sort.Slice` by the keys of the findings, and `uuid_sha1` is `uuid.NewSHA1`.
use k8s_migration.Base.{
  ℕ, ◌+◌, ◌-◌, String, Bool, not, some, List, [], ◌∷◌, ◌++◌, str_eq, str_ltb, trim_space, join, any,
  order_by, if◌then◌else◌, Result, ok, failure, require, ◌>>◌,
}
use k8s_migration.Environment.{Capabilities}
use k8s_migration.Application.{SourceApplication, ResourceReference, ResourceSummary}
use k8s_migration.Assessment.Model.{Severity, Category, Status, Issue, Assessment}

pub record Context : Type 0 where
  pub application : SourceApplication
  pub source : Capabilities
  pub target : Capabilities

pub record Finding : Type 0 where
  pub severity : Severity
  pub category : Category
  pub resource : ResourceReference
  pub rule_id : String
  pub title : String
  pub description : String
  pub remediation : String
  pub auto_fixable : Bool

pub record Rule : Type 0 where
  pub id : String
  pub category : Category
  pub evaluate : Context → List Finding

abbrev has_rule : String → List Rule → Bool
has_rule id rules = any (λ r. str_eq r.id id) rules

-- The loop of `NewEngine`. `registered` has the rules that the map has so far.
unfoldable pub register : List Rule → List Rule → Result (List Rule)
register registered [] = ok registered
register registered (rule ∷ rules) =
    let rest = register (registered ++ rule ∷ []) rules in
    do
      require (not (str_eq (trim_space rule.id) "")) (failure "assessment rule ID is required")
      require (not (has_rule rule.id registered)) (failure "duplicate assessment rule")
      rest

unfoldable pub new_engine : List Rule → Result (List Rule)
unfolding register
new_engine rules = register [] rules

abbrev pub severity_text : Severity → String
severity_text Severity.blocker = "BLOCKER"
severity_text Severity.warning = "WARNING"
severity_text Severity.info = "INFO"

abbrev pub category_text : Category → String
category_text Category.compute = "COMPUTE"
category_text Category.storage = "STORAGE"
category_text Category.network = "NETWORK"
category_text Category.security = "SECURITY"
category_text Category.image = "IMAGE"
category_text Category.api = "API"
category_text Category.dependency = "DEPENDENCY"

unfoldable pub finding_key : Finding → String
unfolding join
finding_key f = join "\0" (
    severity_text f.severity
    ∷ category_text f.category
    ∷ f.rule_id
    ∷ f.resource.api_version
    ∷ f.resource.kind
    ∷ f.resource.namespace
    ∷ f.resource.name
    ∷ [])

unfoldable pub resource_ref : ResourceSummary → ResourceReference
resource_ref r = record {
  api_version = r.api_version;
  kind = r.kind;
  namespace = r.namespace;
  name = r.name;
}

abbrev pub issue_of : (ℕ → String → ℕ) → ℕ → Finding → Issue
issue_of uuid_sha1 assessment f = record {
  id = uuid_sha1 assessment (finding_key f);
  assessment_id = assessment;
  severity = f.severity;
  category = f.category;
  resource_kind = f.resource.kind;
  resource_namespace = f.resource.namespace;
  resource_name = f.resource.name;
  rule_id = f.rule_id;
  title = f.title;
  description = f.description;
  remediation = f.remediation;
  auto_fixable = f.auto_fixable;
}

-- The score only falls, so that a subtraction that stops at 0 gives what the source gets by setting a
-- negative score to 0 at the end.
unfoldable pub count_severity : Severity → Assessment → Assessment
count_severity Severity.blocker a = record a {
  blocker_count = a.blocker_count + 1;
  score = a.score - 30;
}
count_severity Severity.warning a = record a {
  warning_count = a.warning_count + 1;
  score = a.score - 10;
}
count_severity Severity.info a = record a { info_count = a.info_count + 1; score = a.score - 2 }

unfoldable pub add_finding : (ℕ → String → ℕ) → Finding → Assessment → Assessment
unfolding count_severity
add_finding uuid_sha1 f a =
    count_severity f.severity (record a { issues = a.issues ++ issue_of uuid_sha1 a.id f ∷ [] })

-- The loop over the sorted findings. `seen` has the keys of those that became issues.
unfoldable pub add_findings :
    (ℕ → String → ℕ) → List String → List Finding → Assessment → Assessment
unfolding add_finding
add_findings uuid_sha1 seen [] a = a
add_findings uuid_sha1 seen (f ∷ fs) a =
    let added = add_findings uuid_sha1 (finding_key f ∷ seen) fs (add_finding uuid_sha1 f a) in
    let skipped = add_findings uuid_sha1 seen fs a in
    if any (λ key. str_eq key (finding_key f)) seen then skipped else added

abbrev pub evaluate_all : List Rule → Context → List Finding
evaluate_all [] context = []
evaluate_all (rule ∷ rules) context = rule.evaluate context ++ evaluate_all rules context

-- The rules in the order of their ids, which differ.
abbrev pub findings_of : List Rule → Context → List Finding
findings_of engine context = evaluate_all (order_by (λ a b. str_ltb a.id b.id) engine) context

abbrev pub empty_assessment : ℕ → ℕ → ℕ → Assessment
empty_assessment id application now = record {
  id = id;
  application_id = application;
  score = 100;
  blocker_count = 0;
  warning_count = 0;
  info_count = 0;
  status = Status.completed;
  issues = [];
  created_at = now;
  completed_at = some now;
}

unfoldable pub assess :
    (List Finding → List Finding) → (ℕ → String → ℕ) → List Rule → ℕ → ℕ → Context → Assessment
unfolding add_findings
assess sort uuid_sha1 engine id now context =
    add_findings uuid_sha1 [] (sort (findings_of engine context))
      (empty_assessment id context.application.id now)
