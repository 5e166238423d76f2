-- ===== src/Execution/Scaling.antt =====
-- internal/adapter/kubernetes/execution.go: what the executor relies on of the scaling of workloads.
use k8s_migration.Base.{
  ℕ, ◌≡◌, sym, ◌∙◌, ap, String, true, Option, some, List, any, All, inl, inr, Bool-cases, ok,
}
use k8s_migration.Base.Tables.{All-mono, All-select}
use k8s_migration.Security.Crypto.{Bytes}
use k8s_migration.Application.{Inventory}
use k8s_migration.Execution.Clients.{KubernetesClient, ScalableWorkload}
use k8s_migration.Execution.Context.{manual_resource_selection}
use k8s_migration.Execution.Quiesce.{is_selected, selected_workloads}
use k8s_migration.Execution.Recorded.{is_workload, is_workload-eq, Sized}

-- What is relied on of the scaling of workloads: `replicas` is what the API server has of one.
pub record ScalingLaws {W : Type 0} (client : KubernetesClient W) : Type 0 where
  pub replicas : Bytes → String → String → String → W → Option ℕ
  pub listed :
      (kube : Bytes) (namespace : String) (w : W) (ws : List ScalableWorkload)
      → client.list_scalable_workloads kube namespace w ≡ ok ws
      → All (λ x. replicas kube x.namespace x.kind x.name w ≡ some x.replicas) ws
  pub scaled :
      (kube : Bytes) (ws : List ScalableWorkload) (w : W) (namespace kind name : String) (n : ℕ)
      → (client.scale_workloads kube ws w).0 ≡ ok tt
      → any (is_workload namespace kind name) ws ≡ true
      → All (Sized namespace kind name n) ws
      → replicas kube namespace kind name (client.scale_workloads kube ws w).1 ≡ some n
  pub unstaged :
      (kube staged : Bytes) (namespace run_id : String) (w : W) (ns kind name : String)
      → replicas kube ns kind name (client.delete_pvc_staging staged namespace run_id w).1
        ≡ replicas kube ns kind name w

some_eq : {a b : ℕ} → some a ≡ some b → a ≡ b
some_eq h = cc

-- A listing agrees with itself on the replicas of a workload.
pub listed-Sized :
    {W : Type 0} {client : KubernetesClient W} (laws : ScalingLaws client) (kube : Bytes) (w : W)
    (namespace kind name : String) (n : ℕ) (ws : List ScalableWorkload)
    → All (λ x. laws.replicas kube x.namespace x.kind x.name w ≡ some x.replicas) ws
    → laws.replicas kube namespace kind name w ≡ some n
    → All (Sized namespace kind name n) ws
listed-Sized laws kube w namespace kind name n ws h e =
    All-mono (λ x. laws.replicas kube x.namespace x.kind x.name w ≡ some x.replicas)
      (Sized namespace kind name n)
      (λ x p hit.
        let (a, b, c) = is_workload-eq x namespace kind name hit in
        some_eq (
          sym p
          ∙ (ap (λ t. laws.replicas kube t x.kind x.name w) a
              ∙ (ap (λ t. laws.replicas kube namespace t x.name w) b
                  ∙ (ap (λ t. laws.replicas kube namespace kind t w) c ∙ e)))))
      ws h

pub selected-All :
    (P : ScalableWorkload → Type 0) (inventory : Inventory) (ws : List ScalableWorkload)
    → All P ws
    → All P (selected_workloads inventory ws)
selected-All P inventory ws h = elim (Bool-cases (manual_resource_selection inventory)) [
  | inl e ↦ rw e (All-select P (is_selected inventory.workloads) ws h)
  | inr e ↦ rw e h
]
