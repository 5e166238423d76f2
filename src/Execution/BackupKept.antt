-- ===== src/Execution/BackupKept.antt =====
-- The backup and the check of its transfer keep the saved snapshots.
use k8s_migration.Base.{
  ℕ, String, true, Option, none, some, List, [], ◌∷◌, Result, ok, err, str_eq, failure, ◌==◌,
}
use k8s_migration.Base.Exec.{Exec, ◌>>◌}
use k8s_migration.Execution.Clients.{KubernetesClient, BackupStatus}
use k8s_migration.Execution.State.{VeleroExecutor, State, check, return}
use k8s_migration.Execution.Context.{ExecutionContext, manual_resource_selection}
use k8s_migration.Execution.Backup.{
  label_by, label_with, label_selected, clean, cleaned_up, backup_loop, run_backup, deferring,
  backup, report_transfers, end_backup, verify_transfer,
}
use k8s_migration.Execution.Keeps.{
  Snapshots, Keeps, Keeps-bind, Keeps-if, Keeps-then, Keeps-still, Keeps-act, keeps_rules,
}

module _ {W : Type 0} where
  cleaned :
      (Q : Snapshots → Type 0) (e : VeleroExecutor W) (client : KubernetesClient W)
      (c : ExecutionContext) (r : Result (Unit {0})) (s : State W)
      → Q s.snapshots
      → Q (cleaned_up e client c (r, s)).1.snapshots
  cleaned Q e client c (ok _) s h = h
  cleaned Q e client c (err problem) s h = h

module _ {W : Type 0} {Q : Snapshots → Type 0} where
  module _ (e : VeleroExecutor W) where
    label_with-Keeps :
        (c : ExecutionContext) (client : Option (KubernetesClient W))
        → Keeps Q (label_with e c client)
    unfolding label_with
    label_with-Keeps c none = search keeps_rules
    label_with-Keeps c (some client) =
        elim client.label_resources as (λ l. Keeps Q (label_by e c l)) [
          | none ↦ Keeps-still _
          | some f ↦ Keeps-act _
        ]

    clean-Keeps :
        (c : ExecutionContext) (client : Option (KubernetesClient W)) → Keeps Q (clean e c client)
    unfolding clean
    clean-Keeps c none = Keeps-still _
    clean-Keeps c (some client) = Keeps-act _

    report_transfers-Keeps :
        (c : ExecutionContext) (stage name : String) (last : Option ℕ)
        → Keeps Q (report_transfers e c stage name last)
    unfolding report_transfers
    report_transfers-Keeps c stage name last = search keeps_rules depth 20

    end_backup-Keeps :
        (c : ExecutionContext) (status : BackupStatus) → Keeps Q (end_backup e c status)
    unfolding end_backup
    end_backup-Keeps c status =
        Keeps-if (str_eq status.phase "Completed")
          (Keeps-then (check (status.errors == 0) (failure "Velero Backup completed with errors"))
            (clean e c e.kubernetes >> return true) (Keeps-still _)
            (Keeps-then (clean e c e.kubernetes) (return true) (clean-Keeps c e.kubernetes)
              (Keeps-still _)))
          (search keeps_rules)

    backup_loop-Keeps :
        (c : ExecutionContext) (stage name : String) (ws : List (W → W)) (last : Option ℕ)
        (status : BackupStatus)
        → Keeps Q (backup_loop e c stage name ws last status)
    unfolding backup_loop
    backup_loop-Keeps c stage name [] last status =
        Keeps-bind (report_transfers e c stage name last) (report_transfers-Keeps c stage name last)
          (λ t.
            Keeps-bind (end_backup e c status) (end_backup-Keeps c status)
              (λ b. search keeps_rules))
    backup_loop-Keeps c stage name (w ∷ ws) last status =
        Keeps-bind (report_transfers e c stage name last) (report_transfers-Keeps c stage name last)
          (λ t.
            Keeps-bind (end_backup e c status) (end_backup-Keeps c status)
              (λ b. search (keeps_rules, backup_loop-Keeps c stage name ws)))

    label_selected-Keeps : (c : ExecutionContext) → Keeps Q (label_selected e c)
    unfolding label_selected
    label_selected-Keeps c =
        Keeps-if (manual_resource_selection c.application.inventory)
          (label_with-Keeps c e.kubernetes) (Keeps-still _)

    run_backup-Keeps :
        (c : ExecutionContext) (stage : String) (ws : List (W → W))
        → Keeps Q (run_backup e c stage ws)
    unfolding run_backup
    run_backup-Keeps c stage ws =
        Keeps-then (label_selected e c) _ (label_selected-Keeps c)
          (search (keeps_rules, backup_loop-Keeps) depth 20)

    deferring-Keeps :
        (client : KubernetesClient W) (c : ExecutionContext) (m : Exec (State W) (Unit {0}))
        → Keeps Q m
        → Keeps Q (deferring e client c m)
    unfolding deferring
    deferring-Keeps client c m k = record {
      at = λ s h. cleaned Q e client c (m s).0 (m s).1 (k.at s h);
    }

    pub backup-Keeps :
        (run : ℕ) (stage : String) (ws : List (W → W)) → Keeps Q (backup e run stage ws)
    unfolding backup
    backup-Keeps run stage ws = search (keeps_rules, deferring-Keeps, run_backup-Keeps) depth 20

    pub verify_transfer-Keeps : (run : ℕ) → Keeps Q (verify_transfer e run)
    unfolding verify_transfer
    verify_transfer-Keeps run = search keeps_rules depth 20
