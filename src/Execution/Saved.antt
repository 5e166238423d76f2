-- ===== src/Execution/Saved.antt =====
-- The saved snapshots of a workload, as the workloads that a restore starts.

use k8s_migration.Base.{
  ℕ, ◌≡◌, sym, ◌∙◌, String, Bool, true, false, ◌&&◌, str_eq, eq_iff, ◌==◌, any, All, select, length,
  arith,
}
use k8s_migration.Base.Tables.{All-mono}
use k8s_migration.Base.Orders.{any-order_by, All-order_by}
use k8s_migration.Base.Selected.{any-map, any-select, any_mono, All-map, All-select_where}
use k8s_migration.Execution.Progress.{WorkloadReplicaSnapshot, list_workload_replica_snapshots}
use k8s_migration.Execution.Quiesce.{workload_of, scalable_workloads}
use k8s_migration.Execution.Keeps.{Snapshots}
use k8s_migration.Execution.Recorded.{is_workload, Sized}
use k8s_migration.Execution.Stopped.{not_empty}

module _ (run : ℕ) (kind name : String) (n : ℕ) where
  abbrev pub is_of : WorkloadReplicaSnapshot → Bool
  is_of row = row.run_id == run && (str_eq row.kind kind && str_eq row.name name)

  -- The run has a snapshot of such a workload, and each has `n` replicas.
  abbrev pub Saved : Snapshots → Type 0
  Saved rows = (any is_of rows ≡ true) × All (λ row. is_of row ≡ true → row.replicas ≡ n) rows

  module _ (namespace : String) (named : str_eq namespace "" ≡ false) where
    is_of-workload :
        (row : WorkloadReplicaSnapshot)
        → is_of row
          ≡ (row.run_id == run && is_workload namespace kind name (workload_of namespace row))
    is_of-workload row = rw named (ground (arith, eq_iff namespace namespace))

    pub listed-Saved :
        (rows : Snapshots)
        → Saved rows
        → (any
              (is_workload namespace kind name)
              (scalable_workloads (list_workload_replica_snapshots rows run) namespace)
            ≡ true)
          × All
              (Sized namespace kind name n)
              (scalable_workloads (list_workload_replica_snapshots rows run) namespace)
    unfolding list_workload_replica_snapshots
    listed-Saved rows h = (
      any-map (workload_of namespace) (is_workload namespace kind name)
            (list_workload_replica_snapshots rows run)
          ∙ (any-order_by (λ row. is_workload namespace kind name (workload_of namespace row)) _
                (select (λ row. row.run_id == run) rows)
              ∙ (any-select (λ row. row.run_id == run)
                    (λ row. is_workload namespace kind name (workload_of namespace row)) rows
                  ∙ any_mono is_of _ (λ row e. sym (is_of-workload row) ∙ e) rows h.0)),
      All-map (Sized namespace kind name n) (workload_of namespace)
          (list_workload_replica_snapshots rows run)
          (All-order_by (λ row. Sized namespace kind name n (workload_of namespace row)) _
            (select (λ row. row.run_id == run) rows)
            (All-select_where (λ row. row.run_id == run)
              (λ row. Sized namespace kind name n (workload_of namespace row)) rows
              (All-mono (λ row. is_of row ≡ true → row.replicas ≡ n)
                (λ row.
                  (row.run_id == run) ≡ true
                  → Sized namespace kind name n (workload_of namespace row))
                (λ row agree own hit. agree (is_of-workload row ∙ ground arith)) rows h.1))),
    )

    pub some-Saved :
        (rows : Snapshots)
        → Saved rows
        → (length (list_workload_replica_snapshots rows run) == 0) ≡ false
    some-Saved rows h =
        not_empty namespace kind name namespace (list_workload_replica_snapshots rows run)
          (listed-Saved rows h).0
