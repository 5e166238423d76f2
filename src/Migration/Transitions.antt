-- ===== src/Migration/Transitions.antt =====
-- internal/domain/migration/model.go: the state machine of a run.
pub mod Graph
use k8s_migration.Base.{
  ℕ, Bool, true, false, Option, none, some, List, [], ◌∷◌, ◌==◌, ◌||◌, any, require, Result,
  invalid_transition,
}
use k8s_migration.Migration.Model.{RunStatus, StepType}

-- Go compares the texts; the number of a status stands for its text.
abbrev pub number : RunStatus → ℕ
number RunStatus.pending = 0
number RunStatus.preflight = 1
number RunStatus.presync = 2
number RunStatus.quiesce = 3
number RunStatus.final_backup = 4
number RunStatus.transfer = 5
number RunStatus.transform = 6
number RunStatus.restore = 7
number RunStatus.validation = 8
number RunStatus.awaiting_cutover = 9
number RunStatus.rolling_back = 10
number RunStatus.completed = 11
number RunStatus.failed = 12
number RunStatus.cancelled = 13

abbrev pub same_status : RunStatus → RunStatus → Bool
same_status a b = number a == number b

-- `none` is the empty status of a step type that the code does not know.
unfoldable pub status_for_step : StepType → Option RunStatus
status_for_step StepType.preflight = some RunStatus.preflight
status_for_step StepType.presync = some RunStatus.presync
status_for_step StepType.quiesce = some RunStatus.quiesce
status_for_step StepType.final_backup = some RunStatus.final_backup
status_for_step StepType.transfer = some RunStatus.transfer
status_for_step StepType.transform = some RunStatus.transform
status_for_step StepType.restore = some RunStatus.restore
status_for_step StepType.validation = some RunStatus.validation
status_for_step StepType.await_cutover = some RunStatus.awaiting_cutover
status_for_step StepType.rollback = some RunStatus.rolling_back
status_for_step (StepType.other _) = none

unfoldable pub requires_rollback : RunStatus → Bool
requires_rollback RunStatus.quiesce = true
requires_rollback RunStatus.final_backup = true
requires_rollback RunStatus.transfer = true
requires_rollback RunStatus.transform = true
requires_rollback RunStatus.restore = true
requires_rollback RunStatus.validation = true
requires_rollback RunStatus.awaiting_cutover = true
requires_rollback _ = false

unfoldable pub is_terminal : RunStatus → Bool
is_terminal s =
    same_status s RunStatus.completed
    || same_status s RunStatus.failed
    || same_status s RunStatus.cancelled

-- A status that is no key of the map has no successors.
unfoldable pub allowed_transitions : RunStatus → List RunStatus
allowed_transitions RunStatus.pending = RunStatus.preflight ∷ RunStatus.cancelled ∷ []
allowed_transitions RunStatus.preflight =
    RunStatus.presync ∷ RunStatus.quiesce ∷ RunStatus.failed ∷ RunStatus.cancelled ∷ []
allowed_transitions RunStatus.presync =
    RunStatus.quiesce ∷ RunStatus.failed ∷ RunStatus.cancelled ∷ []
allowed_transitions RunStatus.quiesce = RunStatus.final_backup ∷ RunStatus.rolling_back ∷ []
allowed_transitions RunStatus.final_backup =
    RunStatus.transfer ∷ RunStatus.transform ∷ RunStatus.rolling_back ∷ []
allowed_transitions RunStatus.transfer = RunStatus.transform ∷ RunStatus.rolling_back ∷ []
allowed_transitions RunStatus.transform = RunStatus.restore ∷ RunStatus.rolling_back ∷ []
allowed_transitions RunStatus.restore = RunStatus.validation ∷ RunStatus.rolling_back ∷ []
allowed_transitions RunStatus.validation = RunStatus.awaiting_cutover ∷ RunStatus.rolling_back ∷ []
allowed_transitions RunStatus.awaiting_cutover = RunStatus.completed ∷ RunStatus.rolling_back ∷ []
allowed_transitions RunStatus.rolling_back =
    RunStatus.failed ∷ RunStatus.cancelled ∷ RunStatus.completed ∷ []
allowed_transitions RunStatus.completed = RunStatus.rolling_back ∷ []
allowed_transitions RunStatus.failed = []
allowed_transitions RunStatus.cancelled = []

-- Whether the table has the transition.
unfoldable pub is_allowed : RunStatus → RunStatus → Bool
unfolding allowed_transitions
is_allowed from to = any (same_status to) (allowed_transitions from)

unfoldable pub validate_transition : RunStatus → RunStatus → Result (Unit {0})
unfolding is_allowed
validate_transition from to = require (is_allowed from to) invalid_transition
