-- ===== src/Execution/Cleanup.antt =====
-- internal/migration/velero_executor.go: how a backup ends.
use mathlib.Core.Path.{subst}
use k8s_migration.Base.{
  ℕ, ◌≡◌, refl, sym, String, Bool, true, false, Option, none, some, List, [], ◌∷◌, str_eq, ltb,
  ◌==◌, length, ok, inl, inr, Result-cases, failure, arith,
}
use k8s_migration.Security.Crypto.{Bytes}
use k8s_migration.Execution.Clients.{KubernetesClient, BackupStatus}
use k8s_migration.Execution.State.{
  VeleroExecutor, State, check, act, ask, sleep, velero_namespace, fail_with, cancelled,
}
use k8s_migration.Execution.Context.{ExecutionContext, resolve, backup_name}
use k8s_migration.Execution.Backup.{
  is_fs_backup, staging_spec, backup_spec, run_text, clean, has_failed, report_transfers,
  end_backup, backup_loop, label_selected, run_backup, deferring, backup,
}
use k8s_migration.Execution.Ends.{Ends, Ends-bind, Ends-after, Ends-fail, Ends-if, finished}

-- What is relied on of the deletion of staging pods: `staged` is whether a run has any.
pub record StagingLaws {W : Type 0} (client : KubernetesClient W) : Type 0 where
  pub staged : Bytes → String → String → W → Bool
  pub deleted :
      (kube : Bytes) (namespace run_id : String) (w : W)
      → (client.delete_pvc_staging kube namespace run_id w).0 ≡ ok tt
      → staged kube namespace run_id (client.delete_pvc_staging kube namespace run_id w).1 ≡ false

module _ {W : Type 0} (client : KubernetesClient W) (laws : StagingLaws client)
    (e : VeleroExecutor W) (c : ExecutionContext)
    (configured_client : e.kubernetes ≡ some client) where
  abbrev IsClean : State W → Type 0
  IsClean s = laws.staged c.source_kube c.application.namespace (run_text e c) s.clusters ≡ false

  clean-IsClean : Ends (λ _. IsClean) (clean e c e.kubernetes)
  unfolding clean
  clean-IsClean = rw configured_client (record {
    at = λ s a p. laws.deleted c.source_kube c.application.namespace (run_text e c) s.clusters p;
  })

  end_backup-IsClean :
      (status : BackupStatus) → Ends (λ ended s. ended ≡ true → IsClean s) (end_backup e c status)
  unfolding end_backup
  end_backup-IsClean status =
      Ends-if (str_eq status.phase "Completed")
        (λ _.
          Ends-bind (check (status.errors == 0) (failure "Velero Backup completed with errors"))
            (λ _. Ends-after (clean e c e.kubernetes) _ clean-IsClean (λ _ s h b p _. h)))
        (λ _.
          Ends-if (has_failed status.phase) (λ _. Ends-fail _)
            (λ _. record { at = λ s a p q. absurd (ground arith) }))

  backup_loop-IsClean :
      (stage name : String) (ws : List (W → W)) (last : Option ℕ) (status : BackupStatus)
      → Ends (λ _. IsClean) (backup_loop e c stage name ws last status)
  unfolding backup_loop
  backup_loop-IsClean stage name [] last status =
      Ends-bind (report_transfers e c stage name last) (λ t.
        Ends-after (end_backup e c status) _ (end_backup-IsClean status) (λ ended s h b p.
          finished {Q = λ _. IsClean} ended (fail_with cancelled) (Ends-fail _) s h b p))
  backup_loop-IsClean stage name (w ∷ ws) last status =
      Ends-bind (report_transfers e c stage name last) (λ t.
        Ends-after (end_backup e c status) _ (end_backup-IsClean status) (λ ended s h b p.
          finished {Q = λ _. IsClean} ended _
            (Ends-bind (sleep w) (λ _.
              Ends-bind (ask (e.velero.backup_status c.source_kube velero_namespace name))
                (λ next. backup_loop-IsClean stage name ws (some t) next)))
            s h b p))

  run_backup-IsClean :
      (stage : String) (ws : List (W → W)) → Ends (λ _. IsClean) (run_backup e c stage ws)
  unfolding run_backup
  run_backup-IsClean stage ws = Ends-bind (label_selected e c) (λ _.
      Ends-bind
        (act (
          e.velero.create_backup c.source_kube
            (backup_spec e c (backup_name e.uuid_text c.run.id stage))))
        (λ status.
          backup_loop-IsClean stage (backup_name e.uuid_text c.run.id stage) ws none status))

  unstaged_end :
      (s : State W) (stage : String) (ws : List (W → W))
      → ((w : W)
          → (client.delete_pvc_staging c.source_kube c.application.namespace (run_text e c) w).0
            ≡ ok tt)
      → IsClean (deferring e client c (run_backup e c stage ws) s).1
  unfolding deferring
  unstaged_end s stage ws deletes = elim (Result-cases (run_backup e c stage ws s).0) [
    | inl (problem, p) ↦
        rw (p, deferring)
          (laws.deleted c.source_kube c.application.namespace (run_text e c)
            (run_backup e c stage ws s).1.clusters (deletes (run_backup e c stage ws s).1.clusters))
    | inr (u, p) ↦ rw (p, deferring) ((run_backup-IsClean stage ws).at s u p)
  ]

backup-opened :
    {W : Type 0} (client : KubernetesClient W) (e : VeleroExecutor W) (run : ℕ) (stage : String)
    (waits : List (W → W)) (s : State W) (c : ExecutionContext)
    → e.kubernetes ≡ some client
    → resolve e s.db run ≡ ok c
    → is_fs_backup c.plan.strategy.volume_mode ≡ true
    → ltb 0 (length c.application.inventory.pvcs) ≡ true
    → (client.prepare_pvc_staging c.source_kube (staging_spec e c) s.clusters).0 ≡ ok tt
    → backup e run stage waits s
      ≡ deferring e client c (run_backup e c stage waits) (record s {
        clusters = (client.prepare_pvc_staging c.source_kube (staging_spec e c) s.clusters).1;
      })
unfolding backup
backup-opened client e run stage waits s c k r mode volumes prepared =
    rw (r, backup) (rw mode (rw volumes (rw k (rw prepared refl))))

-- Where the staging pods of a file system backup could be prepared and the client can delete staging pods, none of the run is left in the namespace when the backup has ended, however it has ended.
pub backup-staged :
    {W : Type 0} (client : KubernetesClient W) (laws : StagingLaws client) (e : VeleroExecutor W)
    (run : ℕ) (stage : String) (waits : List (W → W)) (s : State W) (c : ExecutionContext)
    → e.kubernetes ≡ some client
    → resolve e s.db run ≡ ok c
    → is_fs_backup c.plan.strategy.volume_mode ≡ true
    → ltb 0 (length c.application.inventory.pvcs) ≡ true
    → (client.prepare_pvc_staging c.source_kube (staging_spec e c) s.clusters).0 ≡ ok tt
    → ((w : W)
        → (client.delete_pvc_staging c.source_kube c.application.namespace (run_text e c) w).0
          ≡ ok tt)
    → laws.staged c.source_kube c.application.namespace
        (run_text e c)
        (backup e run stage waits s).1.clusters
      ≡ false
backup-staged client laws e run stage waits s c k r mode volumes prepared deletes =
    subst
      (λ x. laws.staged c.source_kube c.application.namespace (run_text e c) x.1.clusters ≡ false)
      (sym (backup-opened client e run stage waits s c k r mode volumes prepared))
      (unstaged_end client laws e c k
        (record s {
          clusters = (client.prepare_pvc_staging c.source_kube (staging_spec e c) s.clusters).1;
        })
        stage waits deletes)
