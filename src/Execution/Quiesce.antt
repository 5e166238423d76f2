-- ===== src/Execution/Quiesce.antt =====
-- internal/migration/velero_executor.go: `quiesce`, which stops the workloads of the source and keeps
-- the numbers of their replicas, and `rollback`, which starts them again.
use k8s_migration.Base.{
  ℕ, String, Bool, ◌&&◌, List, [], ◌∷◌, map, str_eq, ◌+++◌, ◌==◌, equal_fold, any, select, length,
  if◌then◌else◌, failure, Result, ok, err,
}
use k8s_migration.Base.Exec.{Exec, ◌>>=◌, ◌>>◌}
use k8s_migration.Application.{ResourceSummary, Inventory}
use k8s_migration.Migration.Model.{info}
use k8s_migration.Store.Tables.Rows.{text_value, int_value}
use k8s_migration.Execution.Clients.{KubernetesClient, ScalableWorkload}
use k8s_migration.Execution.Progress.{
  WorkloadReplicaSnapshot, save_workload_replica_snapshots, list_workload_replica_snapshots,
}
use k8s_migration.Execution.State.{
  VeleroExecutor, State, fail_with, ask, act, read, ignore, emit, configured,
}
use k8s_migration.Execution.Context.{ExecutionContext, resolve, manual_resource_selection}

abbrev pub is_selected : List ResourceSummary → ScalableWorkload → Bool
is_selected resources workload =
    any (λ r. equal_fold r.kind workload.kind && str_eq r.name workload.name) resources

abbrev pub selected_workloads : Inventory → List ScalableWorkload → List ScalableWorkload
selected_workloads inventory workloads =
    if manual_resource_selection inventory
    then select (is_selected inventory.workloads) workloads
    else workloads

abbrev pub snapshot_of : ℕ → ScalableWorkload → WorkloadReplicaSnapshot
snapshot_of run workload = record {
  id = 0;
  run_id = run;
  namespace = workload.namespace;
  kind = workload.kind;
  name = workload.name;
  replicas = workload.replicas;
  created_at = 0;
  updated_at = 0;
}

abbrev pub stop : ScalableWorkload → ScalableWorkload
stop workload = record workload { replicas = 0 }

abbrev pub workload_of : String → WorkloadReplicaSnapshot → ScalableWorkload
workload_of target_namespace value = record {
  namespace = if str_eq target_namespace "" then value.namespace else target_namespace;
  kind = value.kind;
  name = value.name;
  replicas = value.replicas;
}

abbrev pub scalable_workloads : List WorkloadReplicaSnapshot → String → List ScalableWorkload
scalable_workloads values target_namespace = map (workload_of target_namespace) values

module _ {W : Type 0} where
  abbrev pub with_snapshots :
      State W → Result (List WorkloadReplicaSnapshot) → Result (Unit {0}) × State W
  with_snapshots s (ok rows) = (ok tt, record s { snapshots = rows })
  with_snapshots s (err e) = (err e, s)

  unfoldable pub save_snapshots :
      VeleroExecutor W → ℕ → List WorkloadReplicaSnapshot → Exec (State W) (Unit {0})
  unfolding save_workload_replica_snapshots
  save_snapshots e run values s =
      with_snapshots s (save_workload_replica_snapshots e.fresh e.now s.snapshots run values)

  unfoldable pub list_snapshots : ℕ → Exec (State W) (List WorkloadReplicaSnapshot)
  unfolding list_workload_replica_snapshots
  list_snapshots run s = (ok (list_workload_replica_snapshots s.snapshots run), s)

  unfoldable pub stop_workloads :
      VeleroExecutor W
      → KubernetesClient W
      → ℕ
      → ExecutionContext
      → List ScalableWorkload
      → Exec (State W) (Unit {0})
  unfolding emit
  stop_workloads e client run c workloads = do
    act (client.scale_workloads c.source_kube (map stop workloads))
    emit e run "SOURCE_QUIESCED" info
        ("Source workloads scaled to zero in namespace " +++ c.application.namespace)
        (("namespace", text_value c.application.namespace)
          ∷ ("workloads", int_value (length workloads))
          ∷ [])

  unfoldable pub quiesce_workloads :
      VeleroExecutor W → KubernetesClient W → ℕ → ExecutionContext → Exec (State W) (Unit {0})
  unfolding save_snapshots stop_workloads
  quiesce_workloads e client run c = do
    listed ← ask (client.list_scalable_workloads c.source_kube c.application.namespace)
    let workloads = selected_workloads c.application.inventory listed
    save_snapshots e run (map (snapshot_of run) workloads)
    stop_workloads e client run c workloads

  unfoldable pub quiesce : VeleroExecutor W → ℕ → Exec (State W) (Unit {0})
  unfolding resolve quiesce_workloads emit
  quiesce e run = do
    c ← read (λ db. resolve e db run)
    (if length c.application.inventory.pvcs == 0
        then emit e run "SOURCE_QUIESCE_NOT_REQUIRED" info
            "所选应用没有 PVC，无需停机同步卷数据，源业务保持运行，目标验证完成后由管理员切流。" []
        else (do
          client ← configured e "Kubernetes workload scaling is not configured"
          quiesce_workloads e client run c))

  unfoldable pub restore_workloads :
      VeleroExecutor W
      → KubernetesClient W
      → ℕ
      → ExecutionContext
      → List WorkloadReplicaSnapshot
      → Exec (State W) (Unit {0})
  unfolding emit
  restore_workloads e client run c snapshots = do
    act (client.scale_workloads c.source_kube (scalable_workloads snapshots ""))
    ignore (act (client.delete_pvc_staging c.source_kube c.application.namespace (e.uuid_text run)))
    emit e run "SOURCE_ROLLBACK_COMPLETED" info "Source workload replicas were restored"
        (("workloads", int_value (length snapshots)) ∷ [])

  unfoldable pub rollback : VeleroExecutor W → ℕ → Exec (State W) (Unit {0})
  unfolding resolve list_snapshots restore_workloads emit
  rollback e run = do
    c ← read (λ db. resolve e db run)
    client ← configured e "Kubernetes workload scaling is not configured"
    snapshots ← list_snapshots run
    (if length snapshots == 0
        then (if length c.application.inventory.pvcs == 0
            then emit e run "SOURCE_ROLLBACK_NOT_REQUIRED" info "无卷迁移没有停止源业务，无需恢复源端副本。" []
            else fail_with (failure "source workload replica snapshot is missing"))
        else restore_workloads e client run c snapshots)
