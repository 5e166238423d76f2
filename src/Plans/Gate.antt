-- ===== src/Plans/Gate.antt =====
-- internal/migration/service.go: what the preflight checks of a plan demand, without their texts, order
-- and counts.
use k8s_migration.Base.{Bool, true, not, ◌&&◌, ◌||◌, ◌==◌, List, [], ◌∷◌, if◌then◌else◌}
use k8s_migration.Environment.{is_kubernetes, is_connected, supports_raw_block_data_mover}
use k8s_migration.Application as App
use k8s_migration.Application.{SourceApplication, Inventory, VolumeSummary}
use k8s_migration.Migration.Model.{Plan}
use k8s_migration.Plans.Checks.{
  is_discovered, has_compose_runtime, has_smartx_csi, is_completed, has_target_class,
}
use k8s_migration.Plans.Strategy.{
  is_csi_data_mover, has_snapshot_driver, is_valid_mode, has_raw_block,
}
use k8s_migration.Plans.Service.{References}

abbrev pub all_volumes : (VolumeSummary → Bool) → List VolumeSummary → Bool
all_volumes holds [] = true
all_volumes holds (v ∷ vs) = holds v && all_volumes holds vs

-- The environments can be used.
abbrev pub environments_ready : References → Bool
environments_ready r =
    is_connected r.source.status
    && (is_connected r.target.status
        && ((if is_kubernetes r.source.kind
              then is_discovered r.source
              else has_compose_runtime r.source)
            && (is_discovered r.target && has_smartx_csi r.target.capabilities)))

abbrev pub assessment_ready : References → Bool
assessment_ready r = is_completed r.assessment.status && r.assessment.blocker_count == 0

-- The mode fits the type of the application, a block volume demands the CSI data mover on Linux nodes, and
-- the CSI data mover demands its runtime on both sides and a snapshot driver for each volume.
abbrev pub strategy_ready : Plan → References → Bool
strategy_ready plan r =
    let csi = is_csi_data_mover plan.strategy.volume_mode in
    is_valid_mode r.application plan.strategy.volume_mode
    && ((not (has_raw_block r.application)
          || (csi && supports_raw_block_data_mover r.source.capabilities))
        && (not csi
            || (r.source.capabilities.csi_data_mover.backup_ready
                && (r.target.capabilities.csi_data_mover.restore_ready
                    && all_volumes (has_snapshot_driver r.source) r.application.inventory.pvcs))))

-- Each volume of a Kubernetes application gets a class that the target has.
abbrev pub storage_ready : References → Bool
storage_ready r =
    App.is_compose r.application.source_type
    || all_volumes (has_target_class r.target.capabilities r.profile) r.application.inventory.pvcs

abbrev pub gate : Plan → References → Bool
gate plan r =
    environments_ready r && (assessment_ready r && (strategy_ready plan r && storage_ready r))
