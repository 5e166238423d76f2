-- ===== src/Migration/Texts.antt =====
-- internal/domain/migration/model.go: the texts of the step types and of the statuses of a run.
use k8s_migration.Base.{String}
use k8s_migration.Migration.Model.{StepType, RunStatus}

-- The text of a step type.
abbrev pub type_text : StepType → String
type_text StepType.preflight = "PREFLIGHT"
type_text StepType.presync = "PRESYNC"
type_text StepType.quiesce = "QUIESCE"
type_text StepType.final_backup = "FINAL_BACKUP"
type_text StepType.transfer = "TRANSFER"
type_text StepType.transform = "TRANSFORM"
type_text StepType.restore = "RESTORE"
type_text StepType.validation = "VALIDATION"
type_text StepType.await_cutover = "AWAIT_CUTOVER"
type_text StepType.rollback = "ROLLBACK"
type_text (StepType.other text) = text

-- The text of a status.
abbrev pub status_text : RunStatus → String
status_text RunStatus.pending = "PENDING"
status_text RunStatus.preflight = "PREFLIGHT"
status_text RunStatus.presync = "PRESYNC"
status_text RunStatus.quiesce = "QUIESCE"
status_text RunStatus.final_backup = "FINAL_BACKUP"
status_text RunStatus.transfer = "TRANSFER"
status_text RunStatus.transform = "TRANSFORM"
status_text RunStatus.restore = "RESTORE"
status_text RunStatus.validation = "VALIDATION"
status_text RunStatus.awaiting_cutover = "AWAITING_CUTOVER"
status_text RunStatus.rolling_back = "ROLLING_BACK"
status_text RunStatus.completed = "COMPLETED"
status_text RunStatus.failed = "FAILED"
status_text RunStatus.cancelled = "CANCELLED"
