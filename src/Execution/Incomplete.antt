-- ===== src/Execution/Incomplete.antt =====
-- internal/migration/velero_executor.go: a backup succeeds only where Velero has completed it.
use k8s_migration.Base.{
  ℕ, ◌≡◌, ◌≢◌, String, Bool, true, false, ◌&&◌, Option, none, some, List, [], ◌∷◌, str_eq, ltb,
  ◌==◌, length, Result, ok, err, failure, arith,
}
use k8s_migration.Base.Exec.{Exec}
use k8s_migration.Security.Crypto.{Bytes}
use k8s_migration.Execution.Clients.{KubernetesClient, BackupStatus, BackupSpec}
use k8s_migration.Execution.State.{
  VeleroExecutor, State, check, act, ask, read, sleep, velero_namespace, fail_with, cancelled,
  configured,
}
use k8s_migration.Execution.Context.{ExecutionContext, resolve, backup_name}
use k8s_migration.Execution.Backup.{
  is_fs_backup, staging_spec, backup_spec, has_failed, report_transfers, end_backup, backup_loop,
  label_selected, run_backup, cleaned_up, deferring, backup,
}
use k8s_migration.Execution.Ends.{Ends, Ends-bind, Ends-after, Ends-fail, Ends-if, finished}

abbrev pub is_complete : BackupStatus → Bool
is_complete status = str_eq status.phase "Completed" && status.errors == 0

module _ {W : Type 0} (e : VeleroExecutor W)
    (created : (kube : Bytes) (spec : BackupSpec) (w : W) (status : BackupStatus)
      → (e.velero.create_backup kube spec w).0 ≡ ok status
      → is_complete status ≡ false)
    (reported : (kube : Bytes) (name : String) (w : W) (status : BackupStatus)
      → e.velero.backup_status kube velero_namespace name w ≡ ok status
      → is_complete status ≡ false) where
  end_backup-false :
      (c : ExecutionContext) (status : BackupStatus)
      → is_complete status ≡ false
      → Ends {W = W} (λ ended _. ended ≡ false) (end_backup e c status)
  unfolding end_backup
  end_backup-false c status open_end =
      Ends-if (str_eq status.phase "Completed")
        (λ completed.
          Ends-after {R = λ _ _. (status.errors == 0) ≡ true}
            (check (status.errors == 0) (failure "Velero Backup completed with errors")) _
            (record { at = λ s a p. ground arith }) (λ a s none_left b p. absurd (ground arith)))
        (λ _.
          Ends-if (has_failed status.phase) (λ _. Ends-fail _)
            (λ _. record { at = λ s a p. ground arith }))

  backup_loop-ne :
      (c : ExecutionContext) (stage name : String) (ws : List (W → W)) (last : Option ℕ)
      (status : BackupStatus)
      → is_complete status ≡ false
      → Ends {W = W} (λ _ _. ⊥) (backup_loop e c stage name ws last status)
  unfolding backup_loop
  backup_loop-ne c stage name [] last status open_end =
      Ends-bind (report_transfers e c stage name last) (λ t.
        Ends-after (end_backup e c status) _ (end_backup-false c status open_end) (λ ended s h b p.
          finished {Q = λ _ _. ⊥} ended (fail_with cancelled) (Ends-fail _) s
            (λ q. absurd (ground arith)) b p))
  backup_loop-ne c stage name (w ∷ ws) last status open_end =
      Ends-bind (report_transfers e c stage name last) (λ t.
        Ends-after (end_backup e c status) _ (end_backup-false c status open_end) (λ ended s h b p.
          finished {Q = λ _ _. ⊥} ended _
            (Ends-bind (sleep w) (λ _.
              Ends-after {R = λ next _. is_complete next ≡ false}
                (ask (e.velero.backup_status c.source_kube velero_namespace name))
                (λ next. backup_loop e c stage name ws (some t) next)
                (record { at = λ s next q. reported c.source_kube name s.clusters next q })
                (λ next s' open_next.
                  (backup_loop-ne c stage name ws (some t) next open_next).at s')))
            s (λ q. absurd (ground arith)) b p))

  run_backup-ne :
      (c : ExecutionContext) (stage : String) (ws : List (W → W))
      → Ends {W = W} (λ _ _. ⊥) (run_backup e c stage ws)
  unfolding run_backup
  run_backup-ne c stage ws = Ends-bind (label_selected e c) (λ _.
      Ends-after {R = λ status _. is_complete status ≡ false}
        (act (
          e.velero.create_backup c.source_kube
            (backup_spec e c (backup_name e.uuid_text c.run.id stage))))
        _ (record { at = λ s status p. created c.source_kube _ s.clusters status p })
        (λ status s open_end.
          (backup_loop-ne c stage (backup_name e.uuid_text c.run.id stage) ws none status
              open_end).at
            s))

  cleaned_up-ne :
      (client : KubernetesClient W) (c : ExecutionContext) (r : Result (Unit {0})) (s : State W)
      → r ≢ ok tt
      → (cleaned_up e client c (r, s)).0 ≢ ok tt
  cleaned_up-ne client c (ok _) s h = h
  cleaned_up-ne client c (err problem) s h = h

  deferring-ne :
      (client : KubernetesClient W) (c : ExecutionContext) (m : Exec (State W) (Unit {0}))
      → Ends (λ _ _. ⊥) m
      → Ends (λ _ _. ⊥) (deferring e client c m)
  unfolding deferring
  deferring-ne client c m k = record {
    at = λ s a p. cleaned_up-ne client c (m s).0 (m s).1 (k.at s tt) p;
  }

  backup-never :
      (run : ℕ) (stage : String) (ws : List (W → W)) → Ends (λ _ _. ⊥) (backup e run stage ws)
  unfolding backup
  backup-never run stage ws = Ends-bind (read (λ db. resolve e db run)) (λ c.
      Ends-if
        (is_fs_backup c.plan.strategy.volume_mode && ltb 0 (length c.application.inventory.pvcs))
        (λ _. Ends-bind (configured e "Kubernetes PVC staging is not configured") (λ client.
          Ends-bind (act (client.prepare_pvc_staging c.source_kube (staging_spec e c)))
            (λ _. deferring-ne client c (run_backup e c stage ws) (run_backup-ne c stage ws))))
        (λ _. run_backup-ne c stage ws))

  -- Where Velero reports no backup as completed without errors, neither when it is created nor later, a backup does not succeed, however long it waits.
  pub backup-ne-ok :
      (run : ℕ) (stage : String) (waits : List (W → W)) (s : State W)
      → (backup e run stage waits s).0 ≢ ok tt
  backup-ne-ok run stage waits s p = (backup-never run stage waits).at s tt p
