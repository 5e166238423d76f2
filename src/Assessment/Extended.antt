-- ===== src/Assessment/Extended.antt =====
-- internal/assessment/rules_extended.go: the rules on Compose projects, volumes, services and security.
use k8s_migration.Base.{
  String, Bool, true, false, not, ◌&&◌, ◌||◌, none, some, List, [], ◌∷◌, str_eq, ◌+++◌, equal_fold,
  join, lower_contains, any, if◌then◌else◌,
}
use k8s_migration.Environment.{
  StorageClass, snapshot_driver_for_storage_class, supports_raw_block_data_mover,
}
use k8s_migration.Application.{ResourceReference, VolumeSummary, ComposeWarning}
use k8s_migration.Assessment.Model.{Severity, Category}
use k8s_migration.Assessment.Engine.{Context, Finding, resource_ref}
use k8s_migration.Assessment.Rules.{gather, member}

-- The first warning on unresolved variables ends the loop.
abbrev unresolved : String → List ComposeWarning → List Finding
unresolved name [] = []
unresolved name (w ∷ ws) =
    if str_eq w.code "COMPOSE_UNRESOLVED_VARIABLES"
    then (record {
      severity = Severity.blocker;
      category = Category.dependency;
      resource = record { api_version = ""; kind = "ComposeProject"; namespace = ""; name = name };
      rule_id = "COMPOSE_UNRESOLVED_VARIABLES";
      title = "Compose 环境变量尚未解析";
      description = w.message;
      remediation = "重新注册该 Compose 应用并上传受控 .env，或补齐运行所需变量后重新发现并评估。";
      auto_fixable = false;
    })
      ∷ []
    else unresolved name ws

unfoldable pub compose_unresolved_variables : Context → List Finding
compose_unresolved_variables context = elim context.application.inventory.compose [
  | none ↦ []
  | some c ↦
      unresolved (if str_eq c.project_name "" then context.application.name else c.project_name)
        c.warnings
]

abbrev volume_ref : VolumeSummary → ResourceReference
volume_ref v = record {
  api_version = "v1";
  kind = "PersistentVolumeClaim";
  namespace = v.namespace;
  name = v.name;
}

-- Both ends are ready to move the volume as a block device.
unfoldable pub block_path : Context → VolumeSummary → Bool
unfolding snapshot_driver_for_storage_class supports_raw_block_data_mover
block_path context v =
    (snapshot_driver_for_storage_class context.source v.storage_class_name).1
    && (supports_raw_block_data_mover context.source
        && (context.source.csi_data_mover.backup_ready
            && context.target.csi_data_mover.restore_ready))

unfoldable pub block_finding : Context → VolumeSummary → Finding
unfolding block_path
block_finding context v =
    if block_path context v
    then record {
      severity = Severity.warning;
      category = Category.storage;
      resource = volume_ref v;
      rule_id = "STORAGE_RAW_BLOCK";
      title = "原始块卷必须使用 CSI Data Mover";
      description = "源 StorageClass 已匹配快照驱动，源端 DataUpload 和目标端 DataDownload 运行时均就绪。";
      remediation = "创建迁移计划时必须选择 CSI_DATA_MOVER；执行前仍会进行实时探测。Raw Block仅在 Linux节点上放行。";
      auto_fixable = false;
    }
    else record {
      severity = Severity.blocker;
      category = Category.storage;
      resource = volume_ref v;
      rule_id = "STORAGE_RAW_BLOCK";
      title = "原始块卷尚无可用迁移路径";
      description = "PVC 使用 volumeMode=Block，不能按文件系统备份迁移。";
      remediation = "在源端安装并验证 CSI Snapshot/Data Mover，在目标端验证 DataDownload 和 node-agent；未确认前禁止迁移。";
      auto_fixable = false;
    }

unfoldable pub raw_block_volume : Context → List Finding
unfolding block_finding equal_fold
raw_block_volume context =
    gather (λ v. if equal_fold v.volume_mode "Block" then block_finding context v ∷ [] else [])
      context.application.inventory.pvcs

abbrev is_nfs : StorageClass → Bool
is_nfs c = lower_contains (c.provisioner +++ ("/" +++ c.name)) "nfs"

unfoldable pub rwx_storage : Context → List Finding
unfolding lower_contains
rwx_storage context =
    if any is_nfs context.target.storage_classes
    then []
    else gather
        (λ v.
          if member v.access_modes "ReadWriteMany"
          then (record {
            severity = Severity.blocker;
            category = Category.storage;
            resource = volume_ref v;
            rule_id = "STORAGE_RWX_TARGET";
            title = "目标集群缺少 RWX 文件存储";
            description = "PVC 需要 ReadWriteMany，但目标能力快照中没有 NFS StorageClass。";
            remediation = "通过外部 NFS 向导安装 NFS CSI 并创建、验证目标 StorageClass。";
            auto_fixable = false;
          })
            ∷ []
          else [])
        context.application.inventory.pvcs

unfoldable pub ingress_class : Context → List Finding
unfolding resource_ref
ingress_class context =
    gather
      (λ i.
        if not (str_eq i.ingress_class_name "")
          && not (member context.target.ingress_classes i.ingress_class_name)
        then (record {
          severity = Severity.warning;
          category = Category.network;
          resource = resource_ref i;
          rule_id = "NETWORK_INGRESS_CLASS";
          title = "IngressClass 需要映射";
          description = "源 IngressClass " +++ (i.ingress_class_name +++ " 不在目标能力快照中。");
          remediation = "选择目标 IngressClass 并在转换阶段改写。";
          auto_fixable = true;
        })
          ∷ []
        else [])
      context.application.inventory.ingresses

unfoldable pub exposed_service : Context → List Finding
unfolding resource_ref
exposed_service context =
    gather
      (λ s.
        if str_eq s.service_type "NodePort" || str_eq s.service_type "LoadBalancer"
        then (record {
          severity = Severity.warning;
          category = Category.network;
          resource = resource_ref s;
          rule_id = "NETWORK_EXPOSED_SERVICE";
          title = "外部服务地址不会自动迁移";
          description = "Service 类型为 " +++ (s.service_type +++ "，目标地址和端口需要重新分配。");
          remediation = "在网络映射中确认目标暴露方式；切流仍需人工执行。";
          auto_fixable = false;
        })
          ∷ []
        else [])
      context.application.inventory.services

unfoldable pub pod_security : Context → List Finding
unfolding resource_ref join
pod_security context =
    gather
      (λ w. elim w.security_risks [
        | [] ↦ []
        | r ∷ rs ↦
            (record {
              severity = if member (r ∷ rs) "HOST_PATH" then Severity.blocker else Severity.warning;
              category = Category.security;
              resource = resource_ref w;
              rule_id = "SECURITY_HOST_ACCESS";
              title = "工作负载使用高风险主机能力";
              description = "检测到 " +++ (join "、" (r ∷ rs) +++ "。");
              remediation = "移除主机耦合和特权配置，或在目标安全策略中经过人工例外审批。";
              auto_fixable = false;
            })
            ∷ []
      ])
      context.application.inventory.workloads
