-- ===== src/Execution/Target.antt =====
-- internal/migration/velero_executor.go: a restore gives the target the replicas of the source.
use mathlib.Core.Path.{subst}
use k8s_migration.Base.{
  ℕ, ◌≡◌, refl, sym, String, true, false, some, List, [], ◌∷◌, str_eq, ◌==◌, inl, inr, Result-cases,
  Bool-cases, if◌then◌else◌, length, ok, failure, arith,
}
use k8s_migration.Base.Exec.{Exec, ◌>>=◌, ◌>>◌}
use k8s_migration.Store.Tables.Rows.{Value}
use k8s_migration.Migration.Model.{EventSeverity}
use k8s_migration.Execution.Clients.{KubernetesClient, RestoreStatus}
use k8s_migration.Execution.Progress.{list_workload_replica_snapshots, append_event}
use k8s_migration.Execution.State.{
  VeleroExecutor, State, velero_namespace, return, check, act, ask, sleep, fail_with, cancelled,
  emit,
}
use k8s_migration.Execution.Context.{ExecutionContext, resolve, backup_name, restore_name}
use k8s_migration.Execution.Quiesce.{scalable_workloads, list_snapshots}
use k8s_migration.Execution.Backup.{has_failed}
use k8s_migration.Execution.Restore.{
  namespace_of, finish_target, finish_with, report_restored, end_restore, record_downloads,
  restore_loop, restore_spec, ensure_namespace, wait_for_synced_backup, restore,
}
use k8s_migration.Execution.Keeps.{Snapshots}
use k8s_migration.Execution.RestoreKept.{restore-Keeps}
use k8s_migration.Execution.Scaling.{ScalingLaws}
use k8s_migration.Execution.Ends.{Ends, Ends-bind, Ends-after, Ends-fail, Ends-if, finished}
use k8s_migration.Execution.Saved.{Saved, listed-Saved, some-Saved}

-- An event leaves the snapshots and the clusters alone.
emit-same :
    {W B : Type 0} (Q : Snapshots → W → Type 0) (e : VeleroExecutor W) (run : ℕ) (type : String)
    (severity : EventSeverity) (message : String) (detail : List (String × Value)) (b : B)
    (s : State W)
    → Q s.snapshots s.clusters
    → Q
        ((emit e run type severity message detail >> return b) s).1.snapshots
        ((emit e run type severity message detail >> return b) s).1.clusters
unfolding emit
emit-same Q e run type severity message detail b s h =
    elim (Result-cases (append_event e.now s.db run type severity message detail)) [
      | inl (problem, p) ↦ rw (p, emit) h
      | inr (db, p) ↦ rw (p, emit) h
    ]

module _ {W : Type 0} (client : KubernetesClient W) (laws : ScalingLaws client)
    (e : VeleroExecutor W) (c : ExecutionContext) (configured_client : e.kubernetes ≡ some client)
    (kind name : String) (n : ℕ) (named : str_eq (namespace_of c) "" ≡ false) where
  -- The target has the replicas that are saved.
  abbrev IsScaled : Snapshots → W → Type 0
  IsScaled rows w =
      Saved c.run.id kind name n rows
      → laws.replicas c.target_kube (namespace_of c) kind name w ≡ some n

  abbrev scale_back : Snapshots → Exec (State W) (Unit {0})
  scale_back snapshots =
      if length snapshots == 0
      then return tt
      else act
          (client.scale_workloads c.target_kube (scalable_workloads snapshots (namespace_of c)))

  scale_back-IsScaled :
      Ends (λ _ s. IsScaled s.snapshots s.clusters) (list_snapshots c.run.id >>= scale_back)
  unfolding list_snapshots
  scale_back-IsScaled = record {
    at = λ s u.
        let listed = list_workload_replica_snapshots s.snapshots c.run.id in
        elim (Bool-cases (length listed == 0)) [
          | inl e ↦ rw e (λ p saved.
              let some_rows =
                some-Saved c.run.id kind name n (namespace_of c) named s.snapshots saved in
              absurd (ground (arith, e, some_rows)))
          | inr e ↦ rw e (λ p saved.
              let workloads =
                listed-Saved c.run.id kind name n (namespace_of c) named s.snapshots saved in
              laws.scaled c.target_kube (scalable_workloads listed (namespace_of c)) s.clusters
                (namespace_of c) kind name n p workloads.0 workloads.1)
        ];
  }

  finish_target-IsScaled : Ends (λ _ s. IsScaled s.snapshots s.clusters) (finish_target e c client)
  unfolding finish_target
  finish_target-IsScaled =
      Ends-bind (act (client.apply_post_restore_mappings c.target_kube (namespace_of c) c.mapping))
        (λ result. Ends-bind (emit e c.run.id "POST_RESTORE_MAPPINGS_APPLIED" _ _ _) (λ _.
          Ends-bind
            (act (
              client.delete_storage_class_mappings c.target_kube velero_namespace
                (e.uuid_text c.run.id)))
            (λ _.
              Ends-bind
                (act
                  (client.delete_pvc_staging c.target_kube (namespace_of c) (e.uuid_text c.run.id)))
                (λ _. scale_back-IsScaled))))

  finish_with-IsScaled :
      Ends (λ _ s. IsScaled s.snapshots s.clusters) (finish_with e c e.kubernetes)
  unfolding finish_with
  finish_with-IsScaled = rw configured_client finish_target-IsScaled

  end_restore-IsScaled :
      (status : RestoreStatus)
      → Ends (λ ended s. ended ≡ true → IsScaled s.snapshots s.clusters) (end_restore e c status)
  unfolding end_restore report_restored
  end_restore-IsScaled status =
      Ends-if (str_eq status.phase "Completed")
        (λ _.
          Ends-bind (check (status.errors == 0) (failure "Velero Restore completed with errors"))
            (λ _. Ends-after (finish_with e c e.kubernetes) _ finish_with-IsScaled (λ _ s h b p _.
              emit-same IsScaled e c.run.id "VELERO_RESTORE_COMPLETED" _ _ _ true s h)))
        (λ _.
          Ends-if (has_failed status.phase) (λ _. Ends-fail _)
            (λ _. record { at = λ s a p q. absurd (ground arith) }))

  restore_loop-IsScaled :
      (ws : List (W → W)) (status : RestoreStatus)
      → Ends (λ _ s. IsScaled s.snapshots s.clusters) (restore_loop e c ws status)
  unfolding restore_loop
  restore_loop-IsScaled [] status = Ends-bind (record_downloads e c) (λ _.
      Ends-after (end_restore e c status) _ (end_restore-IsScaled status) (λ ended s h b p.
        finished {Q = λ _ s. IsScaled s.snapshots s.clusters} ended (fail_with cancelled)
          (Ends-fail _) s h b p))
  restore_loop-IsScaled (w ∷ ws) status = Ends-bind (record_downloads e c) (λ _.
      Ends-after (end_restore e c status) _ (end_restore-IsScaled status) (λ ended s h b p.
        finished {Q = λ _ s. IsScaled s.snapshots s.clusters} ended _
          (Ends-bind (sleep w) (λ _.
            Ends-bind
              (ask (
                e.velero.restore_status c.target_kube velero_namespace
                  (restore_name e.uuid_text c.run.id)))
              (λ next. restore_loop-IsScaled ws next)))
          s h b p))

  -- What follows the reading of the plan.
  abbrev restore_with : ℕ → List (W → W) → List (W → W) → Exec (State W) (Unit {0})
  restore_with run sync ws = do
    wait_for_synced_backup e c (backup_name e.uuid_text run "final") sync
    ensure_namespace c e.kubernetes
    status ← act (e.velero.create_restore c.target_kube (restore_spec e c))
    restore_loop e c ws status

  restore-opened :
      (run : ℕ) (sync ws : List (W → W)) (s : State W)
      → resolve e s.db run ≡ ok c
      → restore e run sync ws s ≡ restore_with run sync ws s
  unfolding restore
  restore-opened run sync ws s r = rw (r, restore) refl

  restore_with-IsScaled :
      (run : ℕ) (sync ws : List (W → W))
      → Ends (λ _ s. IsScaled s.snapshots s.clusters) (restore_with run sync ws)
  restore_with-IsScaled run sync ws =
      Ends-bind (wait_for_synced_backup e c (backup_name e.uuid_text run "final") sync) (λ _.
        Ends-bind (ensure_namespace c e.kubernetes) (λ _.
          Ends-bind (act (e.velero.create_restore c.target_kube (restore_spec e c)))
            (λ status. restore_loop-IsScaled ws status)))

-- Where the saved snapshots of the run have a workload of a kind and a name, all with the same number of replicas, a restore that succeeds leaves the workload in the target's namespace with this number, provided that the namespace has a name and the client scales workloads as Kubernetes does.
pub restore-replicas :
    {W : Type 0} (client : KubernetesClient W) (laws : ScalingLaws client) (e : VeleroExecutor W)
    (run : ℕ) (s : State W) (c : ExecutionContext) (kind name : String) (n : ℕ)
    (sync waits : List (W → W))
    → e.kubernetes ≡ some client
    → resolve e s.db run ≡ ok c
    → str_eq (namespace_of c) "" ≡ false
    → Saved c.run.id kind name n s.snapshots
    → (restore e run sync waits s).0 ≡ ok tt
    → laws.replicas c.target_kube (namespace_of c) kind name (restore e run sync waits s).1.clusters
      ≡ some n
restore-replicas client laws e run s c kind name n sync waits k r named saved done =
    let opened = restore-opened client laws e c k kind name n named run sync waits s r in
    let kept = (restore-Keeps {Q = Saved c.run.id kind name n} e run sync waits).at s saved in
    subst (λ t. laws.replicas c.target_kube (namespace_of c) kind name t.1.clusters ≡ some n)
      (sym opened)
      ((restore_with-IsScaled client laws e c k kind name n named run sync waits).at s tt
        (subst (λ t. t.0 ≡ ok tt) opened done)
        (subst (λ t. Saved c.run.id kind name n t.1.snapshots) opened kept))
