-- ===== src/Execution/Verdicts.antt =====
-- internal/migration/velero_executor.go: the wait for a backup on the target.
use k8s_migration.Base.{
  ◌≡◌, ◌≢◌, refl, ◌↔◌, ◌⊎◌, String, true, false, List, [], ◌∷◌, str_eq, eq_iff, Result, ok, err,
  inl, inr, arith, Bool-cases, Result-cases,
}
use k8s_migration.Base.Exec.{Exec}
use k8s_migration.Execution.Clients.{BackupStatus}
use k8s_migration.Execution.State.{VeleroExecutor, State, velero_namespace}
use k8s_migration.Execution.Context.{ExecutionContext}
use k8s_migration.Execution.Backup.{has_failed}
use k8s_migration.Execution.Restore.{synced, on_verdict, wait_for_synced_backup}

-- One of the readings says that the backup is complete, and none before it that it has failed.
abbrev pub Completes : List (Result BackupStatus) → Type 0
Completes [] = ⊥
Completes (err _ ∷ rest) = Completes rest
Completes (ok status ∷ rest) =
    (status.phase ≡ "Completed")
    ⊎ ((status.phase ≢ "Failed")
        × (status.phase ≢ "FailedValidation")
        × (status.phase ≢ "PartiallyFailed")
        × Completes rest)

refused :
    {R : Type 0} (phase : String)
    → str_eq phase "Completed" ≡ false
    → has_failed phase ≡ true
    → (phase ≡ "Completed")
      ⊎ ((phase ≢ "Failed") × (phase ≢ "FailedValidation") × (phase ≢ "PartiallyFailed") × R)
    → ⊥
refused phase other failed (inl done) = absurd (ground (arith, (eq_iff phase "Completed").1 done))
refused phase other failed (inr (a, b, c, _)) = absurd (
    ground (
      arith,
      eq_iff phase "Failed",
      eq_iff phase "FailedValidation",
      eq_iff phase "PartiallyFailed",
    ))

not_failed :
    (phase : String)
    → has_failed phase ≡ false
    → (phase ≢ "Failed") × (phase ≢ "FailedValidation") × (phase ≢ "PartiallyFailed")
not_failed phase h = (
  λ q. absurd (ground (arith, (eq_iff phase "Failed").1 q)),
  λ q. absurd (ground (arith, (eq_iff phase "FailedValidation").1 q)),
  λ q. absurd (ground (arith, (eq_iff phase "PartiallyFailed").1 q)),
)

module _ {W : Type 0} where
  after_status :
      (status : BackupStatus) (later : Exec (State W) (Unit {0}))
      (rest : List (Result BackupStatus)) (s : State W)
      → ((later s).0 ≡ ok tt) ↔ Completes rest
      → ((on_verdict (synced (ok status)) later s).0 ≡ ok tt) ↔ Completes (ok status ∷ rest)
  unfolding on_verdict
  after_status status later rest s behind = elim (Bool-cases (str_eq status.phase "Completed")) [
    | inl done ↦ rw done (λ _. inl ((eq_iff status.phase "Completed").0 done), λ _. refl)
    | inr other ↦ rw other (elim (Bool-cases (has_failed status.phase)) [
      | inl failed ↦
          rw failed (λ h. absurd (ground arith), λ h. absurd (refused status.phase other failed h))
      | inr open_phase ↦ rw open_phase (
          let (a, b, c) = not_failed status.phase open_phase in
          (
            λ h. inr (a, b, c, behind.0 h),
            λ h. elim h [
              | inl done ↦ absurd (ground (arith, (eq_iff status.phase "Completed").1 done))
              | inr (_, _, _, later_on) ↦ behind.1 later_on
            ],
          ))
    ])
  ]

module _ {W : Type 0} (e : VeleroExecutor W) (c : ExecutionContext) (name : String) where
  -- The readings of the target, one before each interval and one behind the last.
  abbrev pub readings : List (W → W) → W → List (Result BackupStatus)
  readings [] w = e.velero.backup_status c.target_kube velero_namespace name w ∷ []
  readings (wait ∷ waits) w =
      e.velero.backup_status c.target_kube velero_namespace name w ∷ readings waits (wait w)

  -- The wait for the backup on the target succeeds exactly where one of the readings of the target says that the backup is Completed, and none before it that it is Failed, FailedValidation or PartiallyFailed; a reading that fails, or that has another phase, counts for nothing.
  pub wait_for_synced_backup-Completes :
      (waits : List (W → W)) (s : State W)
      → ((wait_for_synced_backup e c name waits s).0 ≡ ok tt)
        ↔ Completes (readings waits s.clusters)
  unfolding wait_for_synced_backup on_verdict
  wait_for_synced_backup-Completes [] s =
      elim (Result-cases (e.velero.backup_status c.target_kube velero_namespace name s.clusters)) [
        | inl (problem, p) ↦ rw p (λ h. absurd (ground arith), λ h. absurd h)
        | inr (status, p) ↦
            rw p (after_status status _ [] s (λ h. absurd (ground arith), λ h. absurd h))
      ]
  wait_for_synced_backup-Completes (wait ∷ waits) s =
      let behind =
        wait_for_synced_backup-Completes waits (record s { clusters = wait s.clusters }) in
      elim (Result-cases (e.velero.backup_status c.target_kube velero_namespace name s.clusters)) [
        | inl (problem, p) ↦ rw p behind
        | inr (status, p) ↦ rw p (after_status status _ (readings waits (wait s.clusters)) s behind)
      ]
