-- ===== src/Examples/StatusExamples.antt =====
-- Runs of the state machine's theorems.
use k8s_migration.Base.{not, ◌≡◌, refl, ◌||◌}
use k8s_migration.Migration.Model.{RunStatus}
use k8s_migration.Migration.Transitions.{same_status, requires_rollback, is_terminal, is_allowed}
use k8s_migration.Migration.Transitions.Graph.{rolling_back_allowed, cancel_allowed, terminal_exit}
use k8s_migration.Migration.Schedule.{scheduled_types}
use k8s_migration.Migration.Schedule.Pipeline.{Follows, scheduled_types-Follows}
use k8s_migration.Examples.Rows.{sample_strategy}

rolling_back_allowed_example :
    is_allowed RunStatus.transfer RunStatus.rolling_back
    ≡ (requires_rollback RunStatus.transfer || same_status RunStatus.transfer RunStatus.completed)
rolling_back_allowed_example = rolling_back_allowed RunStatus.transfer

cancel_allowed_example :
    (is_allowed RunStatus.presync RunStatus.rolling_back ≡ requires_rollback RunStatus.presync)
    × (is_allowed RunStatus.presync RunStatus.cancelled ≡ not (requires_rollback RunStatus.presync))
unfolding is_terminal
cancel_allowed_example = cancel_allowed RunStatus.presync refl refl

terminal_exit_example :
    (RunStatus.completed ≡ RunStatus.completed) × (RunStatus.rolling_back ≡ RunStatus.rolling_back)
unfolding is_terminal is_allowed
terminal_exit_example = terminal_exit RunStatus.completed RunStatus.rolling_back refl refl

scheduled_types-Follows_example :
    Follows RunStatus.pending (scheduled_types sample_strategy) RunStatus.awaiting_cutover
scheduled_types-Follows_example = scheduled_types-Follows sample_strategy
