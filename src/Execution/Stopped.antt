-- ===== src/Execution/Stopped.antt =====
-- internal/migration/velero_executor.go: a quiesce records the replicas of the workloads that it stops,
-- and a rollback scales each workload that is recorded.
use k8s_migration.Base.{
  ℕ, ◌≡◌, refl, ◌∙◌, ap, String, true, false, some, List, [], ◌∷◌, map, ◌==◌, any, All, select, inl,
  inr, Result-cases, ok, Ensures-ok, length, arith,
}
use k8s_migration.Base.Tables.{All-mono}
use k8s_migration.Base.Orders.{any-order_by, All-order_by}
use k8s_migration.Store.Tables.Rows.{Value, int_value}
use k8s_migration.Migration.Model.{EventSeverity, info}
use k8s_migration.Execution.Clients.{KubernetesClient, ScalableWorkload}
use k8s_migration.Execution.Progress.{
  list_workload_replica_snapshots, save_workload_replica_snapshots, append_event,
}
use k8s_migration.Execution.State.{VeleroExecutor, State, emit}
use k8s_migration.Execution.Context.{ExecutionContext, resolve}
use k8s_migration.Execution.Quiesce.{
  snapshot_of, workload_of, scalable_workloads, selected_workloads, quiesce_workloads, quiesce,
  restore_workloads, rollback,
}
use k8s_migration.Execution.Keeps.{Snapshots}
use k8s_migration.Execution.Kept.{stop_workloads-Keeps}
use k8s_migration.Execution.Recorded.{is_workload, Agrees, Sized, Recorded, save-Recorded}
use k8s_migration.Execution.Scaling.{ScalingLaws}
use k8s_migration.Base.Selected.{any-map, any-select, All-map, All-select_where}

emit-clusters :
    {W : Type 0} (e : VeleroExecutor W) (run : ℕ) (type : String) (severity : EventSeverity)
    (message : String) (detail : List (String × Value)) (s : State W)
    → (emit e run type severity message detail s).1.clusters ≡ s.clusters
unfolding emit
emit-clusters e run type severity message detail s =
    elim (Result-cases (append_event e.now s.db run type severity message detail)) [
      | inl (problem, p) ↦ rw (p, emit) refl
      | inr (db, p) ↦ rw (p, emit) refl
    ]

pub quiesce-opened :
    {W : Type 0} (client : KubernetesClient W) (e : VeleroExecutor W) (run : ℕ) (s : State W)
    (c : ExecutionContext)
    → e.kubernetes ≡ some client
    → resolve e s.db run ≡ ok c
    → (length c.application.inventory.pvcs == 0) ≡ false
    → quiesce e run s ≡ quiesce_workloads e client run c s
unfolding quiesce
quiesce-opened client e run s c k r volumes = rw (r, quiesce) (rw volumes (rw k refl))

pub rollback-opened :
    {W : Type 0} (client : KubernetesClient W) (e : VeleroExecutor W) (run : ℕ) (s : State W)
    (c : ExecutionContext)
    → e.kubernetes ≡ some client
    → resolve e s.db run ≡ ok c
    → (length (list_workload_replica_snapshots s.snapshots run) == 0) ≡ false
    → rollback e run s
      ≡ restore_workloads e client run c (list_workload_replica_snapshots s.snapshots run) s
unfolding rollback
rollback-opened client e run s c k r some_rows = rw (r, rollback) (rw k (rw some_rows refl))

-- A list of workloads that has one comes from a list of snapshots that is not empty.
pub not_empty :
    (namespace kind name target : String) (rows : Snapshots)
    → any (is_workload namespace kind name) (scalable_workloads rows target) ≡ true
    → (length rows == 0) ≡ false
not_empty namespace kind name target [] h = cc
not_empty namespace kind name target (x ∷ rows) h = ground arith

module _ {W : Type 0} (client : KubernetesClient W) (run : ℕ) (namespace kind name : String)
    (n : ℕ) where
  pub quiesce_workloads-Recorded :
      (e : VeleroExecutor W) (c : ExecutionContext) (s : State W) (ws : List ScalableWorkload)
      → client.list_scalable_workloads c.source_kube c.application.namespace s.clusters ≡ ok ws
      → any (is_workload namespace kind name) (selected_workloads c.application.inventory ws) ≡ true
      → All (Sized namespace kind name n) (selected_workloads c.application.inventory ws)
      → All (Agrees run namespace kind name n) s.snapshots
      → (quiesce_workloads e client run c s).0 ≡ ok tt
      → Recorded run namespace kind name n (quiesce_workloads e client run c s).1.snapshots
  unfolding quiesce_workloads
  quiesce_workloads-Recorded e c s ws listing there sized agree done =
      let chosen = selected_workloads c.application.inventory ws in
      elim (Result-cases (
        save_workload_replica_snapshots e.fresh e.now s.snapshots run
          (map (snapshot_of run) chosen))) [
            | inl (problem, p) ↦ absurd (ground (arith, rw (listing, p) at done))
            | inr (rows, p) ↦
                rw (listing, p, quiesce_workloads)
                  ((stop_workloads-Keeps {Q = Recorded run namespace kind name n} e client run c
                      chosen).at
                    (record s { snapshots = rows })
                    (Ensures-ok
                      (save-Recorded run namespace kind name n run e.fresh e.now s.snapshots chosen
                        agree (inr (refl, there, sized)))
                      p))
          ]

  -- A snapshot of the table is among those of the rollback.
  listed-Recorded :
      (rows : Snapshots)
      → Recorded run namespace kind name n rows
      → (any
            (is_workload namespace kind name)
            (scalable_workloads (list_workload_replica_snapshots rows run) "")
          ≡ true)
        × All
            (Sized namespace kind name n)
            (scalable_workloads (list_workload_replica_snapshots rows run) "")
  unfolding list_workload_replica_snapshots
  listed-Recorded rows h = (
    any-map (workload_of "") (is_workload namespace kind name)
          (list_workload_replica_snapshots rows run)
        ∙ (any-order_by (λ row. is_workload namespace kind name (workload_of "" row)) _
              (select (λ row. row.run_id == run) rows)
            ∙ (any-select (λ row. row.run_id == run)
                  (λ row. is_workload namespace kind name (workload_of "" row)) rows
                ∙ h.0)),
    All-map (Sized namespace kind name n) (workload_of "")
        (list_workload_replica_snapshots rows run)
        (All-order_by (λ row. Sized namespace kind name n (workload_of "" row)) _
          (select (λ row. row.run_id == run) rows)
          (All-select_where (λ row. row.run_id == run)
            (λ row. Sized namespace kind name n (workload_of "" row)) rows
            (All-mono (Agrees run namespace kind name n)
              (λ row. (row.run_id == run) ≡ true → Sized namespace kind name n (workload_of "" row))
              (λ row agree own hit. agree (ground arith)) rows h.1))),
  )

  pub restore_workloads-replicas :
      (laws : ScalingLaws client) (e : VeleroExecutor W) (c : ExecutionContext) (s : State W)
      → Recorded run namespace kind name n s.snapshots
      → (restore_workloads e client run c (list_workload_replica_snapshots s.snapshots run) s).0
        ≡ ok tt
      → laws.replicas c.source_kube namespace kind name
          (restore_workloads e client run c
            (list_workload_replica_snapshots s.snapshots run)
            s).1.clusters
        ≡ some n
  unfolding restore_workloads
  restore_workloads-replicas laws e c s h done =
      let values = scalable_workloads (list_workload_replica_snapshots s.snapshots run) "" in
      elim (Result-cases (client.scale_workloads c.source_kube values s.clusters).0) [
        | inl (problem, p) ↦ absurd (ground (arith, rw p at done))
        | inr (u, p) ↦
            rw (p, restore_workloads)
              (ap (laws.replicas c.source_kube namespace kind name) (
                  emit-clusters e run "SOURCE_ROLLBACK_COMPLETED" info
                    "Source workload replicas were restored"
                    ((
                      "workloads",
                      int_value (length (list_workload_replica_snapshots s.snapshots run)),
                    )
                      ∷ [])
                    (record s {
                      clusters =
                          (client.delete_pvc_staging c.source_kube c.application.namespace
                            (e.uuid_text run)
                            (client.scale_workloads c.source_kube values s.clusters).1).1;
                    }))
                ∙ (laws.unstaged c.source_kube c.source_kube c.application.namespace
                      (e.uuid_text run) (client.scale_workloads c.source_kube values s.clusters).1
                      namespace kind name
                    ∙ laws.scaled c.source_kube values s.clusters namespace kind name n p
                        (listed-Recorded s.snapshots h).0 (listed-Recorded s.snapshots h).1))
      ]

  -- The rows of the rollback are not empty.
  pub some_listed :
      (rows : Snapshots)
      → Recorded run namespace kind name n rows
      → (length (list_workload_replica_snapshots rows run) == 0) ≡ false
  some_listed rows h =
      not_empty namespace kind name "" (list_workload_replica_snapshots rows run)
        (listed-Recorded rows h).0
