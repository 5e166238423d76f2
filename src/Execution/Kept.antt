-- ===== src/Execution/Kept.antt =====
-- Whatever a step of the executor does, it keeps what the saving of snapshots keeps.
use k8s_migration.Base.{ℕ, ◌≡◌, List, [], ◌∷◌, Result, ok, inl, inr, Result-cases, map}
use k8s_migration.Environment.{Environment}
use k8s_migration.Application.{VolumeSummary}
use k8s_migration.Migration.Model.{StepType}
use k8s_migration.Store.Tables.Rows.{Claimed}
use k8s_migration.Execution.Clients.{KubernetesClient, NamespaceValidation, ScalableWorkload}
use k8s_migration.Execution.Progress.{save_workload_replica_snapshots}
use k8s_migration.Execution.State.{VeleroExecutor, State, ask}
use k8s_migration.Execution.Context.{ExecutionContext}
use k8s_migration.Execution.Quiesce.{
  snapshot_of, selected_workloads, save_snapshots, stop_workloads, quiesce_workloads, quiesce,
  rollback,
}
use k8s_migration.Execution.Restore.{prepare_transform}
use k8s_migration.Execution.Checks.{
  check_volume, check_volumes, wait_for_namespace_validation, validated, preflight, validate_target,
}
use k8s_migration.Execution.Handle.{Waits, handle_type, handle}
use k8s_migration.Execution.Keeps.{
  Snapshots, Keeps, Keeps-snapshots, Keeps-bind, Keeps-then, Keeps-still, keeps_rules,
}
use k8s_migration.Execution.BackupKept.{backup-Keeps, verify_transfer-Keeps}
use k8s_migration.Execution.RestoreKept.{restore-Keeps}

module _ {W : Type 0} where
  waited :
      (Q : Snapshots → Type 0) (validate : W → NamespaceValidation × Result (Unit {0}))
      (ws : List (W → W)) (s : State W)
      → Q s.snapshots
      → Q (wait_for_namespace_validation validate ws s).1.snapshots
  unfolding wait_for_namespace_validation
  waited Q validate [] s h = elim (Result-cases (validate s.clusters).1) [
    | inl (e, p) ↦ rw (p, wait_for_namespace_validation) h
    | inr (u, p) ↦ rw (p, wait_for_namespace_validation) h
  ]
  waited Q validate (w ∷ ws) s h = elim (Result-cases (validate s.clusters).1) [
    | inl (e, p) ↦
        rw (p, wait_for_namespace_validation)
          (waited Q validate ws (record s { clusters = w s.clusters }) h)
    | inr (u, p) ↦ rw (p, wait_for_namespace_validation) h
  ]

module _ {W : Type 0} {Q : Snapshots → Type 0} where
  check_volume-Keeps :
      (source : Environment) (v : VolumeSummary) → Keeps {W = W} Q (check_volume source v)
  unfolding check_volume
  check_volume-Keeps source v = search keeps_rules

  check_volumes-Keeps :
      (source : Environment) (vs : List VolumeSummary) → Keeps {W = W} Q (check_volumes source vs)
  unfolding check_volumes
  check_volumes-Keeps source [] = Keeps-still _
  check_volumes-Keeps source (v ∷ vs) =
      Keeps-bind (check_volume source v) (check_volume-Keeps source v)
        (λ _. check_volumes-Keeps source vs)

  module _ (e : VeleroExecutor W) where
    preflight-Keeps : (run : ℕ) → Keeps Q (preflight e run)
    unfolding preflight
    preflight-Keeps run = search (keeps_rules, check_volumes-Keeps) depth 20

    prepare_transform-Keeps : (run : ℕ) → Keeps Q (prepare_transform e run)
    unfolding prepare_transform
    prepare_transform-Keeps run = search keeps_rules depth 20

    rollback-Keeps : (run : ℕ) → Keeps Q (rollback e run)
    unfolding rollback
    rollback-Keeps run = search keeps_rules depth 20

    waited-Keeps :
        (validate : W → NamespaceValidation × Result (Unit {0})) (ws : List (W → W))
        → Keeps Q (λ s. validated (wait_for_namespace_validation validate ws s))
    waited-Keeps validate ws = record { at = λ s h. waited Q validate ws s h }

    validate_target-Keeps : (run : ℕ) (ws : List (W → W)) → Keeps Q (validate_target e run ws)
    unfolding validate_target
    validate_target-Keeps run ws = search (keeps_rules, waited-Keeps) depth 30

    pub stop_workloads-Keeps :
        (client : KubernetesClient W) (run : ℕ) (c : ExecutionContext) (ws : List ScalableWorkload)
        → Keeps Q (stop_workloads e client run c ws)
    unfolding stop_workloads
    stop_workloads-Keeps client run c ws = search keeps_rules

    module _
        (saving : (run : ℕ) (workloads : List ScalableWorkload) (rows rows' : Snapshots)
          → save_workload_replica_snapshots e.fresh e.now rows run (map (snapshot_of run) workloads)
            ≡ ok rows'
          → Q rows
          → Q rows') where
      save_snapshots-Keeps :
          (run : ℕ) (workloads : List ScalableWorkload)
          → Keeps Q (save_snapshots e run (map (snapshot_of run) workloads))
      unfolding save_snapshots
      save_snapshots-Keeps run workloads =
          Keeps-snapshots
            (λ rows.
              save_workload_replica_snapshots e.fresh e.now rows run
                (map (snapshot_of run) workloads))
            (λ rows rows' p h. saving run workloads rows rows' p h)

      quiesce_workloads-Keeps :
          (client : KubernetesClient W) (run : ℕ) (c : ExecutionContext)
          → Keeps Q (quiesce_workloads e client run c)
      unfolding quiesce_workloads
      quiesce_workloads-Keeps client run c =
          Keeps-bind (ask (client.list_scalable_workloads c.source_kube c.application.namespace))
            (Keeps-still _)
            (λ listed.
              Keeps-then
                (save_snapshots e run
                  (map (snapshot_of run) (selected_workloads c.application.inventory listed)))
                _ (save_snapshots-Keeps run (selected_workloads c.application.inventory listed))
                (stop_workloads-Keeps client run c
                  (selected_workloads c.application.inventory listed)))

      quiesce-Keeps : (run : ℕ) → Keeps Q (quiesce e run)
      unfolding quiesce
      quiesce-Keeps run = search (keeps_rules, quiesce_workloads-Keeps) depth 20

      type-Keeps :
          (waits : Waits W) (type : StepType) (run : ℕ) → Keeps Q (handle_type e waits type run)
      type-Keeps waits StepType.preflight run = preflight-Keeps run
      type-Keeps waits StepType.presync run = backup-Keeps e run "presync" waits.poll
      type-Keeps waits StepType.quiesce run = quiesce-Keeps run
      type-Keeps waits StepType.final_backup run = backup-Keeps e run "final" waits.poll
      type-Keeps waits StepType.transfer run = verify_transfer-Keeps e run
      type-Keeps waits StepType.transform run = prepare_transform-Keeps run
      type-Keeps waits StepType.restore run = restore-Keeps e run waits.sync waits.poll
      type-Keeps waits StepType.validation run = validate_target-Keeps run waits.poll
      type-Keeps waits StepType.rollback run = rollback-Keeps run
      type-Keeps waits StepType.await_cutover run = Keeps-still _
      type-Keeps waits (StepType.other _) run = Keeps-still _

      pub handle-Keeps : (waits : Waits W) (lease : Claimed) → Keeps Q (handle e waits lease)
      unfolding handle
      handle-Keeps waits lease = type-Keeps waits lease.step_type lease.run_id
