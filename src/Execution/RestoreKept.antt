-- ===== src/Execution/RestoreKept.antt =====
-- The restore keeps the saved snapshots.
use k8s_migration.Base.{
  ℕ, String, Bool, true, false, Option, none, some, List, [], ◌∷◌, str_eq, failure, ◌==◌,
}
use k8s_migration.Base.Exec.{Exec, ◌>>◌}
use k8s_migration.Execution.Clients.{KubernetesClient, RestoreStatus}
use k8s_migration.Execution.State.{VeleroExecutor, State, sleep, fail_with, check, return}
use k8s_migration.Execution.Context.{ExecutionContext}
use k8s_migration.Execution.Restore.{
  on_verdict, backup_verdict, finish_target, record_downloads, report_restored, end_restore,
  finish_with, ensure_namespace, wait_for_synced_backup, restore_loop, restore,
}
use k8s_migration.Execution.Keeps.{
  Snapshots, Keeps, Keeps-bind, Keeps-if, Keeps-then, Keeps-still, Keeps-act, Keeps-sleep,
  keeps_rules,
}

module _ {W : Type 0} {Q : Snapshots → Type 0} where
  module _ (e : VeleroExecutor W) where
    on_verdict-Keeps :
        (v : Option Bool) (m : Exec (State W) (Unit {0})) → Keeps Q m → Keeps Q (on_verdict v m)
    unfolding on_verdict
    on_verdict-Keeps none m k = k
    on_verdict-Keeps (some true) m k = Keeps-still _
    on_verdict-Keeps (some false) m k = Keeps-still _

    wait_for_synced_backup-Keeps :
        (c : ExecutionContext) (name : String) (ws : List (W → W))
        → Keeps Q (wait_for_synced_backup e c name ws)
    unfolding wait_for_synced_backup
    wait_for_synced_backup-Keeps c name [] =
        Keeps-bind (backup_verdict e c name) (Keeps-still _) (λ v.
          on_verdict-Keeps v (fail_with (failure "wait for target Velero Backup sync"))
            (Keeps-still _))
    wait_for_synced_backup-Keeps c name (w ∷ ws) =
        Keeps-bind (backup_verdict e c name) (Keeps-still _) (λ v.
          on_verdict-Keeps v _
            (Keeps-bind (sleep w) (Keeps-sleep w) (λ _. wait_for_synced_backup-Keeps c name ws)))

    finish_target-Keeps :
        (c : ExecutionContext) (client : KubernetesClient W) → Keeps Q (finish_target e c client)
    unfolding finish_target
    finish_target-Keeps c client = search keeps_rules depth 30

    finish_with-Keeps :
        (c : ExecutionContext) (client : Option (KubernetesClient W))
        → Keeps Q (finish_with e c client)
    unfolding finish_with
    finish_with-Keeps c none = Keeps-still _
    finish_with-Keeps c (some client) = finish_target-Keeps c client

    report_restored-Keeps :
        (c : ExecutionContext) (status : RestoreStatus) → Keeps Q (report_restored e c status)
    unfolding report_restored
    report_restored-Keeps c status = search keeps_rules

    end_restore-Keeps :
        (c : ExecutionContext) (status : RestoreStatus) → Keeps Q (end_restore e c status)
    unfolding end_restore
    end_restore-Keeps c status =
        Keeps-if (str_eq status.phase "Completed")
          (Keeps-then (check (status.errors == 0) (failure "Velero Restore completed with errors"))
            (finish_with e c e.kubernetes >> (report_restored e c status >> return true))
            (Keeps-still _)
            (Keeps-then (finish_with e c e.kubernetes) (report_restored e c status >> return true)
              (finish_with-Keeps c e.kubernetes)
              (Keeps-then (report_restored e c status) (return true)
                (report_restored-Keeps c status) (Keeps-still _))))
          (search keeps_rules)

    record_downloads-Keeps : (c : ExecutionContext) → Keeps Q (record_downloads e c)
    unfolding record_downloads
    record_downloads-Keeps c = search keeps_rules depth 20

    restore_loop-Keeps :
        (c : ExecutionContext) (ws : List (W → W)) (status : RestoreStatus)
        → Keeps Q (restore_loop e c ws status)
    unfolding restore_loop
    restore_loop-Keeps c [] status =
        Keeps-bind (record_downloads e c) (record_downloads-Keeps c) (λ _.
          Keeps-bind (end_restore e c status) (end_restore-Keeps c status)
            (λ b. search keeps_rules))
    restore_loop-Keeps c (w ∷ ws) status =
        Keeps-bind (record_downloads e c) (record_downloads-Keeps c) (λ _.
          Keeps-bind (end_restore e c status) (end_restore-Keeps c status)
            (λ b. search (keeps_rules, restore_loop-Keeps c ws)))

    ensure_namespace-Keeps :
        (c : ExecutionContext) (client : Option (KubernetesClient W))
        → Keeps Q (ensure_namespace c client)
    unfolding ensure_namespace
    ensure_namespace-Keeps c none = Keeps-still _
    ensure_namespace-Keeps c (some client) = Keeps-act _

    pub restore-Keeps : (run : ℕ) (sync ws : List (W → W)) → Keeps Q (restore e run sync ws)
    unfolding restore
    restore-Keeps run sync ws =
        search
          (keeps_rules, wait_for_synced_backup-Keeps, ensure_namespace-Keeps, restore_loop-Keeps)
          depth 20
