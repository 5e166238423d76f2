-- ===== src/Migration/Transitions/Graph.antt =====
-- The transition table against the predicates that the code uses beside it.
use k8s_migration.Base.{true, false, ◌≡◌, arith, not, ◌||◌}
use k8s_migration.Migration.Model.{RunStatus}
use k8s_migration.Migration.Transitions.{same_status, requires_rollback, is_terminal, is_allowed}

-- The table lets a run roll back exactly where `RequiresRollback` says so, and after completion.
pub rolling_back_allowed :
    (s : RunStatus)
    → is_allowed s RunStatus.rolling_back
      ≡ (requires_rollback s || same_status s RunStatus.completed)
unfolding is_allowed requires_rollback
rolling_back_allowed s = ground arith

-- A run that is neither terminal nor rolling back can be cancelled in one of the two ways that
-- `CancelRun` chooses by `RequiresRollback`, and the table refuses the other way.
pub cancel_allowed :
    (s : RunStatus)
    → is_terminal s ≡ false
    → same_status s RunStatus.rolling_back ≡ false
    → (is_allowed s RunStatus.rolling_back ≡ requires_rollback s)
      × (is_allowed s RunStatus.cancelled ≡ not (requires_rollback s))
unfolding is_allowed requires_rollback is_terminal
cancel_allowed s t r = ground arith

-- The only way out of a terminal status leads from `COMPLETED` to `ROLLING_BACK`.
pub terminal_exit :
    (from to : RunStatus)
    → is_terminal from ≡ true
    → is_allowed from to ≡ true
    → (from ≡ RunStatus.completed) × (to ≡ RunStatus.rolling_back)
unfolding is_allowed is_terminal
terminal_exit from to t a = ground arith
