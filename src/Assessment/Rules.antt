-- ===== src/Assessment/Rules.antt =====
-- internal/assessment/rules.go: the rules on workloads and on API versions.
use k8s_migration.Base.{
  ℕ, String, Bool, true, false, ◌&&◌, ◌||◌, Option, none, some, List, [], ◌∷◌, ◌++◌, ltb, str_eq,
  ◌+++◌, join, before_char, any, if◌then◌else◌,
}
use k8s_migration.Application.{ResourceSummary}
use k8s_migration.Assessment.Model.{Severity, Category}
use k8s_migration.Assessment.Engine.{Context, Finding, resource_ref}

-- What a loop appends for each element.
abbrev pub gather {ℓ} : {A : Type ℓ} → (A → List Finding) → List A → List Finding
gather f [] = []
gather f (x ∷ xs) = f x ++ gather f xs

-- A member of the set that a list of names makes.
abbrev pub member : List String → String → Bool
member names name = any (λ n. str_eq n name) names

abbrev missing_of : ResourceSummary → List String
missing_of w = elim w.missing_requests [
  | [] ↦ elim w.requests [ [] ↦ "cpu" ∷ "memory" ∷ [] | _ ∷ _ ↦ [] ]
  | m ∷ ms ↦ m ∷ ms
]

unfoldable pub compute_requests : Context → List Finding
unfolding resource_ref join
compute_requests context =
    gather
      (λ w. elim (missing_of w) [
        | [] ↦ []
        | m ∷ ms ↦
            (record {
              severity = Severity.warning;
              category = Category.compute;
              resource = resource_ref w;
              rule_id = "COMPUTE_RESOURCE_REQUESTS";
              title = "工作负载缺少资源请求";
              description = "缺少 " +++ (join "、" (m ∷ ms) +++ " requests，目标集群无法可靠评估调度容量。");
              remediation = "为所有容器配置 CPU 和内存 requests。";
              auto_fixable = false;
            })
            ∷ []
      ])
      context.application.inventory.workloads

abbrev fewer_than_two : Option ℕ → Bool
fewer_than_two none = true
fewer_than_two (some n) = ltb n 2

unfoldable pub replica_availability : Context → List Finding
unfolding resource_ref
replica_availability context =
    gather
      (λ w.
        if (str_eq w.kind "Deployment" || str_eq w.kind "StatefulSet") && fewer_than_two w.replicas
        then (record {
          severity = Severity.info;
          category = Category.compute;
          resource = resource_ref w;
          rule_id = "COMPUTE_SINGLE_REPLICA";
          title = "工作负载副本数低于 2";
          description = "迁移恢复期间没有应用级副本冗余。";
          remediation = "确认业务可接受单副本，或在切流前扩容。";
          auto_fixable = false;
        })
          ∷ []
        else [])
      context.application.inventory.workloads

abbrev removed : List String
removed =
    "extensions/v1beta1/Ingress" ∷ "networking.k8s.io/v1beta1/Ingress" ∷ "apps/v1beta1/Deployment"
    ∷ "apps/v1beta2/Deployment" ∷ "batch/v1beta1/CronJob" ∷ "policy/v1beta1/PodDisruptionBudget"
    ∷ []

unfoldable pub deprecated_api : Context → List Finding
unfolding resource_ref
deprecated_api context =
    gather
      (λ r.
        if member removed (r.api_version +++ ("/" +++ r.kind))
        then (record {
          severity = Severity.blocker;
          category = Category.api;
          resource = resource_ref r;
          rule_id = "API_REMOVED_VERSION";
          title = "目标版本已移除该 API";
          description = r.api_version +++ (" " +++ (r.kind +++ " 不能直接恢复。"));
          remediation = "在转换规则中升级到目标集群支持的稳定 API。";
          auto_fixable = true;
        })
          ∷ []
        else [])
      context.application.inventory.resources

-- Where no group was discovered, the rule finds nothing.
unfoldable pub target_api_availability : Context → List Finding
unfolding resource_ref before_char
target_api_availability context = elim context.target.api_groups [
  | [] ↦ []
  | g ∷ gs ↦
      gather
        (λ r.
          let group = before_char b'/' r.api_version in
          if member (g ∷ gs) group
          then []
          else (record {
            severity = Severity.blocker;
            category = Category.api;
            resource = resource_ref r;
            rule_id = "API_GROUP_UNAVAILABLE";
            title = "目标集群缺少 API Group";
            description = "目标集群未发现 " +++ (group +++ "。");
            remediation = "先安装对应 CRD/Operator，或排除该资源。";
            auto_fixable = false;
          })
            ∷ [])
        context.application.inventory.resources
]
