-- ===== src/Assessment/Dependencies.antt =====
-- internal/assessment/rules.go: the rule on required dependencies, which groups what is missing by the
-- resource that needs it.
use k8s_migration.Base.{
  String, Bool, false, not, ◌&&◌, List, [], ◌∷◌, ◌++◌, map, str_eq, str_ltb, ◌+++◌, join,
  sort_strings, order_by, if◌then◌else◌,
}
use k8s_migration.Environment.{StorageClass}
use k8s_migration.Application.{ResourceReference, Dependency}
use k8s_migration.Assessment.Model.{Severity, Category}
use k8s_migration.Assessment.Engine.{Context, Finding, severity_text, resource_ref}
use k8s_migration.Assessment.Rules.{gather, member}

unfoldable pub ref_key : ResourceReference → String
unfolding join
ref_key r = join "\0" (r.api_version ∷ r.kind ∷ r.namespace ∷ r.name ∷ [])

pub record MissingGroup : Type 0 where
  pub key : String
  pub origin : ResourceReference
  pub severity : Severity
  pub targets : List String

-- `compactStrings` behind a value that has been taken.
abbrev compact_behind : String → List String → List String
compact_behind last [] = []
compact_behind last (s ∷ ss) =
    let rest = compact_behind s ss in
    let same = compact_behind last ss in if str_eq last s then same else s ∷ rest

unfoldable pub compact_strings : List String → List String
compact_strings [] = []
compact_strings (s ∷ ss) = s ∷ compact_behind s ss

-- The target is appended to the group under the key, which is made where there is none.
unfoldable pub add_target :
    String → ResourceReference → Severity → String → List MissingGroup → List MissingGroup
add_target key origin severity target [] =
    (record { key = key; origin = origin; severity = severity; targets = target ∷ [] }) ∷ []
add_target key origin severity target (g ∷ gs) =
    let rest = add_target key origin severity target gs in
    if str_eq g.key key
    then (record {
      key = key;
      origin = origin;
      severity = severity;
      targets = g.targets ++ target ∷ [];
    })
      ∷ gs
    else g ∷ rest

abbrev missing_severity : Dependency → Severity
missing_severity d = if str_eq d.to.kind "StorageClass" then Severity.warning else Severity.blocker

abbrev is_missing : List String → Dependency → Bool
is_missing known d =
    d.required && (not (str_eq d.to.kind "ClusterRole") && not (member known (ref_key d.to)))

unfoldable pub group_missing : List String → List Dependency → List MissingGroup → List MissingGroup
unfolding add_target ref_key
group_missing known [] groups = groups
group_missing known (d ∷ ds) groups =
    let severity = missing_severity d in
    let key = severity_text severity +++ ("\0" +++ ref_key d.origin) in
    let added =
      group_missing known ds
        (add_target key d.origin severity (d.to.kind +++ ("/" +++ d.to.name)) groups) in
    let skipped = group_missing known ds groups in if is_missing known d then added else skipped

abbrev storage_ref : StorageClass → ResourceReference
storage_ref c = record {
  api_version = "storage.k8s.io/v1";
  kind = "StorageClass";
  namespace = "";
  name = c.name;
}

unfoldable pub known_keys : Context → List String
unfolding ref_key resource_ref
known_keys context =
    map (λ r. ref_key (resource_ref r)) context.application.inventory.resources
    ++ map (λ c. ref_key (storage_ref c)) context.target.storage_classes

unfoldable pub required_dependency : Context → List Finding
unfolding sort_strings group_missing compact_strings known_keys
required_dependency context =
    gather
      (λ g.
        (record {
          severity = g.severity;
          category = Category.dependency;
          resource = g.origin;
          rule_id = "DEPENDENCY_REQUIRED_MISSING";
          title = "缺少必需依赖";
          description =
              join "、" (compact_strings (sort_strings g.targets)) +++ " 不在源 Inventory 或目标能力中。";
          remediation = "补充资源、建立目标映射或明确排除该依赖。";
          auto_fixable = false;
        })
        ∷ [])
      (order_by (λ a b. str_ltb a.key b.key)
        (group_missing (known_keys context) context.application.inventory.dependencies []))
