-- ===== src/Plans/Strategy.antt =====
-- internal/migration/service.go: `strategyChecks` and `dataMoverStrategyChecks`.
use k8s_migration.Base.{
  Bool, true, false, not, ◌&&◌, ◌||◌, List, [], ◌∷◌, ◌++◌, ◌+++◌, join, sort_strings, equal_fold,
  any, if◌then◌else◌,
}
use k8s_migration.Environment.{
  Environment, snapshot_driver_for_storage_class, supports_raw_block_data_mover,
}
use k8s_migration.Application as App
use k8s_migration.Application.{SourceApplication, Inventory, VolumeSummary}
use k8s_migration.Migration.Model.{Plan, VolumeMode}
use k8s_migration.Plans.Checks.{CheckStatus, PreflightCheck, check, names_without, is_empty}

abbrev pub is_compose_kopia : VolumeMode → Bool
is_compose_kopia VolumeMode.compose_kopia = true
is_compose_kopia _ = false

abbrev pub is_csi_data_mover : VolumeMode → Bool
is_csi_data_mover VolumeMode.csi_data_mover = true
is_csi_data_mover _ = false

abbrev pub is_fs_backup : VolumeMode → Bool
is_fs_backup VolumeMode.fs_backup = true
is_fs_backup _ = false

unfoldable pub has_snapshot_driver : Environment → VolumeSummary → Bool
unfolding snapshot_driver_for_storage_class
has_snapshot_driver source v =
    (snapshot_driver_for_storage_class source.capabilities v.storage_class_name).1

unfoldable pub data_mover_strategy_checks :
    Environment → Environment → SourceApplication → List PreflightCheck
unfolding has_snapshot_driver join sort_strings
data_mover_strategy_checks source target application =
    let unmatched = names_without (has_snapshot_driver source) application.inventory.pvcs in
    (if source.capabilities.csi_data_mover.backup_ready
      then check "strategy.data-mover-source" "STORAGE" CheckStatus.passed "源端 CSI Data Mover"
          "DataUpload、BackupRepository、EnableCSI 和 node-agent 已就绪。" ""
      else check "strategy.data-mover-source" "STORAGE" CheckStatus.blocker "源端 CSI Data Mover"
          "源端 DataUpload、BackupRepository、EnableCSI 或 node-agent 未就绪。"
          "安装 Velero 1.18/node-agent 并刷新源集群能力快照。")
    ∷ (if target.capabilities.csi_data_mover.restore_ready
        then check "strategy.data-mover-target" "STORAGE" CheckStatus.passed "目标端 CSI Data Mover"
            "DataDownload、BackupRepository、EnableCSI 和 node-agent 已就绪。" ""
        else check "strategy.data-mover-target" "STORAGE" CheckStatus.blocker "目标端 CSI Data Mover"
            "目标端 DataDownload、BackupRepository、EnableCSI 或 node-agent 未就绪。"
            "安装 Velero 1.18/node-agent 并刷新目标集群能力快照。")
    ∷ (if is_empty unmatched
        then check "strategy.snapshot-driver-match" "STORAGE" CheckStatus.passed "源卷快照驱动匹配"
            "每个 PVC 的 StorageClass 均有同驱动 VolumeSnapshotClass。" ""
        else check "strategy.snapshot-driver-match" "STORAGE" CheckStatus.blocker "源卷快照驱动匹配"
            ("以下 PVC 没有同驱动 VolumeSnapshotClass：" +++ join "、" (sort_strings unmatched))
            "为对应 CSI Driver 创建 VolumeSnapshotClass 后刷新能力快照。")
    ∷ []

unfoldable pub is_valid_mode : SourceApplication → VolumeMode → Bool
is_valid_mode application mode =
    (App.is_compose application.source_type && is_compose_kopia mode)
    || (App.is_kubernetes application.source_type && not (is_compose_kopia mode))

unfoldable pub has_raw_block : SourceApplication → Bool
unfolding equal_fold
has_raw_block application = any (λ v. equal_fold v.volume_mode "Block") application.inventory.pvcs

abbrev pub mode_check : Bool → PreflightCheck
mode_check valid =
    if valid
    then check "strategy.volume-mode" "STRATEGY" CheckStatus.passed "数据迁移策略" "数据迁移引擎与源类型匹配。" ""
    else check "strategy.volume-mode" "STRATEGY" CheckStatus.blocker "数据迁移策略" "数据迁移引擎与源类型不匹配。"
        "Kubernetes 使用 FSB/CSI Data Mover，Compose 使用 Kopia。"

abbrev pub raw_block_checks : Bool → Bool → Bool → List PreflightCheck
raw_block_checks raw_block csi linux =
    if raw_block && not csi
    then check "strategy.raw-block" "STORAGE" CheckStatus.blocker "Raw Block PVC"
        "文件级备份不能迁移 Raw Block 设备。" "选择 CSI Data Mover，或为该卷提供受支持的数据迁移方式。"
      ∷ []
    else if raw_block
    then check "strategy.raw-block" "STORAGE" CheckStatus.passed "Raw Block PVC"
        "Raw Block 卷已选择 CSI Data Mover，继续核验快照驱动和运行时。" ""
      ∷ (if linux
          then check "strategy.raw-block-os" "STORAGE" CheckStatus.passed "Raw Block节点操作系统"
              "源集群节点均为 Linux。" ""
          else check "strategy.raw-block-os" "STORAGE" CheckStatus.blocker "Raw Block节点操作系统"
              "无法确认 Raw Block工作负载仅运行在 Linux节点。"
              "Raw Block CSI Data Mover不支持 Windows；刷新节点能力或调整工作负载后重试。")
      ∷ []
    else []

abbrev pub fsb_check : PreflightCheck
fsb_check =
    check "strategy.fsb-runtime" "STORAGE" CheckStatus.warning "FSB 节点访问"
      "node-agent 的 hostPath、MountPropagation 和 kubelet root 路径将在执行前在线验证。" ""

unfoldable pub strategy_checks :
    Plan → Environment → Environment → SourceApplication → List PreflightCheck
unfolding is_valid_mode has_raw_block supports_raw_block_data_mover data_mover_strategy_checks
strategy_checks plan source target application =
    let mode = plan.strategy.volume_mode in
    mode_check (is_valid_mode application mode)
    ∷ (raw_block_checks (has_raw_block application) (is_csi_data_mover mode)
          (supports_raw_block_data_mover source.capabilities)
        ++ (if is_csi_data_mover mode
            then data_mover_strategy_checks source target application
            else if is_fs_backup mode
            then fsb_check ∷ []
            else []))
