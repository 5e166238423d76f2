-- ===== src/Migration/Schedule/Pipeline.antt =====
-- The scheduled steps against the transition table.
use k8s_migration.Base.{Bool, true, false, ◌≡◌, refl, some, List, [], ◌∷◌, if◌then◌else◌}
use k8s_migration.Migration.Model.{Strategy, RunStatus, StepType}
use k8s_migration.Migration.Transitions.{status_for_step, is_allowed}
use k8s_migration.Migration.Schedule.{has_volumes, step_types, scheduled_types}

-- A run in status `from` takes the steps of a list of types one after the other, each by a
-- transition of the table, and is in status `to` after the last one.
pub data Follows : RunStatus → List StepType → RunStatus → Type 0 where
  finished : {s : RunStatus} → Follows s [] s
  takes :
      {from to : RunStatus} {type : StepType} {types : List StepType} (next : RunStatus)
      → status_for_step type ≡ some next
      → is_allowed from next ≡ true
      → Follows next types to
      → Follows from (type ∷ types) to

abbrev transforms : List StepType
transforms =
    StepType.transform ∷ StepType.restore ∷ StepType.validation ∷ StepType.await_cutover ∷ []

abbrev transfers : List StepType
transfers = StepType.transfer ∷ transforms

-- The steps after the data transfer, for a status from which the resources are transformed.
transforms-Follows :
    (s : RunStatus)
    → is_allowed s RunStatus.transform ≡ true
    → Follows s transforms RunStatus.awaiting_cutover
unfolding status_for_step is_allowed
transforms-Follows s h = takes RunStatus.transform refl h (
    takes RunStatus.restore refl refl
      (takes RunStatus.validation refl refl (takes RunStatus.awaiting_cutover refl refl finished)))

-- The steps from the stop of the source on.
quiesce-Follows :
    (volumes : Bool) (s : RunStatus)
    → is_allowed s RunStatus.quiesce ≡ true
    → Follows s
        (StepType.quiesce ∷ StepType.final_backup ∷ (if volumes then transfers else transforms))
        RunStatus.awaiting_cutover
unfolding status_for_step is_allowed
quiesce-Follows true s h = takes RunStatus.quiesce refl h (
    takes RunStatus.final_backup refl refl
      (takes RunStatus.transfer refl refl (transforms-Follows RunStatus.transfer refl)))
quiesce-Follows false s h =
    takes RunStatus.quiesce refl h
      (takes RunStatus.final_backup refl refl (transforms-Follows RunStatus.final_backup refl))

step_types-Follows :
    (pre_sync volumes : Bool)
    → Follows RunStatus.pending (step_types pre_sync volumes) RunStatus.awaiting_cutover
unfolding step_types status_for_step is_allowed
step_types-Follows true true =
    takes RunStatus.preflight refl refl
      (takes RunStatus.presync refl refl (quiesce-Follows true RunStatus.presync refl))
step_types-Follows true false =
    takes RunStatus.preflight refl refl
      (takes RunStatus.presync refl refl (quiesce-Follows false RunStatus.presync refl))
step_types-Follows false true =
    takes RunStatus.preflight refl refl (quiesce-Follows true RunStatus.preflight refl)
step_types-Follows false false =
    takes RunStatus.preflight refl refl (quiesce-Follows false RunStatus.preflight refl)

-- For every strategy, the scheduled steps lead a pending run to the cutover gate, and each of them
-- is entered by a transition that the table allows.
pub scheduled_types-Follows :
    (s : Strategy) → Follows RunStatus.pending (scheduled_types s) RunStatus.awaiting_cutover
scheduled_types-Follows s = step_types-Follows s.pre_sync_enabled (has_volumes s.volume_mode)
