-- ===== src/Migration/Schedule.antt =====
-- internal/migration/run_service.go: `scheduledSteps`.
pub mod Pipeline
use k8s_migration.Base.{
  ℕ, suc, ◌+◌, String, Bool, true, false, none, List, [], ◌∷◌, ◌++◌, ◌+++◌, if◌then◌else◌,
}
use k8s_migration.Migration.Model.{Plan, Strategy, VolumeMode, Step, StepType, StepStatus}
use k8s_migration.Migration.Texts.{type_text}

abbrev pub has_volumes : VolumeMode → Bool
has_volumes VolumeMode.no_volumes = false
has_volumes _ = true

-- The types of the steps, in the order of their execution.
unfoldable pub step_types : Bool → Bool → List StepType
step_types pre_sync volumes =
    let checked = StepType.preflight ∷ [] in
    let synced = if pre_sync then checked ++ StepType.presync ∷ [] else checked in
    let backed_up = synced ++ StepType.quiesce ∷ StepType.final_backup ∷ [] in
    let transferred = if volumes then backed_up ++ StepType.transfer ∷ [] else backed_up in
    transferred
    ++ StepType.transform ∷ StepType.restore ∷ StepType.validation ∷ StepType.await_cutover ∷ []

abbrev pub scheduled_types : Strategy → List StepType
scheduled_types strategy = step_types strategy.pre_sync_enabled (has_volumes strategy.volume_mode)

-- The step of a type at an index. `new_id` gives the UUIDs.
unfoldable pub scheduled_step : ℕ → ℕ → (ℕ → ℕ) → ℕ → StepType → Step
scheduled_step run now new_id index type = record {
  id = new_id index;
  run_id = run;
  type = type;
  attempt = 1;
  status = StepStatus.pending;
  progress = 0;
  started_at = none;
  completed_at = none;
  summary = "";
  idempotency_key = type_text type +++ ":v1";
  created_at = now + index;
  updated_at = now;
}

unfoldable pub steps_from : ℕ → ℕ → (ℕ → ℕ) → ℕ → List StepType → List Step
unfolding scheduled_step
steps_from run now new_id index [] = []
steps_from run now new_id index (type ∷ types) =
    scheduled_step run now new_id index type ∷ steps_from run now new_id (suc index) types

unfoldable pub scheduled_steps : Plan → ℕ → ℕ → (ℕ → ℕ) → List Step
unfolding step_types steps_from
scheduled_steps plan run now new_id = steps_from run now new_id 0 (scheduled_types plan.strategy)
