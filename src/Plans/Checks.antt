-- ===== src/Plans/Checks.antt =====
-- internal/migration/service.go: the preflight checks of the environments, of the assessment, and of
-- the storage and registry mappings.
use k8s_migration.Base.{
  String, Bool, true, false, not, ◌||◌, none, some, List, [], ◌∷◌, ltb, str_eq, ◌+++◌, decimal,
  join, sort_strings, trim_space, equal_fold, any, if◌then◌else◌,
}
use k8s_migration.Environment.{Environment, Capabilities, StorageClass, is_kubernetes, is_connected}
use k8s_migration.Application as App
use k8s_migration.Application.{SourceApplication, Inventory, VolumeSummary, ImageSummary}
use k8s_migration.Assessment.Model.{Status, Assessment}
use k8s_migration.Mapping.Model.{KeyValue}
use k8s_migration.Mapping.Profile.{Profile}

pub data CheckStatus : Type 0 where
  passed warning blocker : CheckStatus

pub record PreflightCheck : Type 0 where
  pub id : String
  pub category : String
  pub status : CheckStatus
  pub title : String
  pub message : String
  pub remediation : String

abbrev pub check : String → String → CheckStatus → String → String → String → PreflightCheck
check id category status title message remediation = record {
  id = id;
  category = category;
  status = status;
  title = title;
  message = message;
  remediation = remediation;
}

unfoldable pub connection_check : String → String → String → Environment → PreflightCheck
connection_check id category title environment =
    if is_connected environment.status
    then check id category CheckStatus.passed title "连接状态正常。" ""
    else check id category CheckStatus.blocker title "环境当前未连接。" "重新执行连接测试并修复凭证或网络。"

-- `runtime[key]`, which is empty for a missing key.
abbrev pub value_of : String → List (String × String) → String
value_of key [] = ""
value_of key (entry ∷ entries) = if str_eq entry.0 key then entry.1 else value_of key entries

abbrev pub is_discovered : Environment → Bool
is_discovered e = elim e.capabilities_updated_at [ none ↦ false | some _ ↦ true ]

abbrev pub has_compose_runtime : Environment → Bool
has_compose_runtime e = not (
    str_eq (value_of "dockerVersion" e.capabilities.runtime) ""
    || str_eq (value_of "composeVersion" e.capabilities.runtime) "")

unfoldable pub source_capability_checks : Environment → List PreflightCheck
source_capability_checks source =
    if is_kubernetes source.kind
    then (if is_discovered source
        then check "source.capabilities" "SOURCE" CheckStatus.passed "源集群能力快照" "源集群能力快照可用。" "" ∷ []
        else check "source.capabilities" "SOURCE" CheckStatus.blocker "源集群能力快照"
            "源 Kubernetes 尚未完成能力发现。" "刷新源集群能力快照。"
          ∷ [])
    else if has_compose_runtime source
    then check "source.compose-runtime" "SOURCE" CheckStatus.passed "Compose 运行时"
        "Docker 与 Compose 运行时信息可用。" ""
      ∷ []
    else check "source.compose-runtime" "SOURCE" CheckStatus.blocker "Compose 运行时"
        "Docker 或 Compose 版本尚未探测。" "重新测试 SSH 环境连接。"
      ∷ []

-- The lower case of the two names is compared, which have no letter that another one folds to.
unfoldable pub is_smartx_csi : String → Bool
unfolding trim_space equal_fold
is_smartx_csi value =
    equal_fold (trim_space value) "smtx-elf-csi-driver"
    || equal_fold (trim_space value) "com.smartx.elf-csi-driver"

abbrev pub has_smartx_csi : Capabilities → Bool
has_smartx_csi c =
    any is_smartx_csi c.csi_drivers || any (λ s. is_smartx_csi s.provisioner) c.storage_classes

unfoldable pub target_capability_checks : Environment → List PreflightCheck
unfolding is_smartx_csi
target_capability_checks target =
    (if is_discovered target
      then check "target.capabilities" "TARGET" CheckStatus.passed "目标能力快照" "目标集群能力快照可用。" ""
      else check "target.capabilities" "TARGET" CheckStatus.blocker "目标能力快照" "目标集群尚未完成能力发现。"
          "刷新目标 SKS 的能力快照。")
    ∷ (if has_smartx_csi target.capabilities
        then check "target.smartx-csi" "STORAGE" CheckStatus.passed "SmartX 块存储 CSI"
            "已发现 smtx-elf-csi-driver。" ""
        else check "target.smartx-csi" "STORAGE" CheckStatus.blocker "SmartX 块存储 CSI"
            "未发现 smtx-elf-csi-driver。" "确认导入的是 SKS 工作负载集群并刷新能力快照。")
    ∷ []

abbrev pub is_completed : Status → Bool
is_completed Status.completed = true
is_completed _ = false

unfoldable pub assessment_checks : Assessment → List PreflightCheck
unfolding decimal
assessment_checks value =
    if is_completed value.status
    then check "assessment.completed" "ASSESSMENT" CheckStatus.passed "迁移评估" "评估已完成。" ""
      ∷ (if ltb 0 value.blocker_count
          then check "assessment.blockers" "ASSESSMENT" CheckStatus.blocker "BLOCKER 门禁"
              ("仍有 " +++ (decimal value.blocker_count +++ " 个阻塞项。")) "返回评估页修复全部 BLOCKER。"
          else check "assessment.blockers" "ASSESSMENT" CheckStatus.passed "BLOCKER 门禁" "没有未解决的阻塞项。"
              "")
      ∷ []
    else check "assessment.completed" "ASSESSMENT" CheckStatus.blocker "迁移评估" "评估尚未完成。"
        "重新执行目标兼容性评估。"
      ∷ []

-- The target of the last mapping of a class.
abbrev pub mapped_class : String → List KeyValue → String
mapped_class class [] = class
mapped_class class (m ∷ ms) =
    if any (λ n. str_eq n.source class) ms
    then mapped_class class ms
    else if str_eq m.source class
    then m.target
    else class

-- The name of the last class that is marked as the default.
abbrev pub default_class : String → List StorageClass → String
default_class found [] = found
default_class found (c ∷ cs) = default_class (if c.default then c.name else found) cs

-- The class of the target cluster that a volume gets.
unfoldable pub target_class : Capabilities → Profile → VolumeSummary → String
target_class c profile volume =
    let class = mapped_class volume.storage_class_name profile.storage in
    if str_eq class "" then default_class "" c.storage_classes else class

unfoldable pub has_target_class : Capabilities → Profile → VolumeSummary → Bool
unfolding target_class
has_target_class c profile volume =
    let class = target_class c profile volume in
    not (str_eq class "" || not (any (λ s. str_eq s.name class) c.storage_classes))

-- The names of the volumes that fail a test.
abbrev pub names_without : (VolumeSummary → Bool) → List VolumeSummary → List String
names_without holds [] = []
names_without holds (v ∷ vs) =
    if holds v then names_without holds vs else v.name ∷ names_without holds vs

abbrev pub is_empty {ℓ} : {A : Type ℓ} → List A → Bool
is_empty [] = true
is_empty (_ ∷ _) = false

unfoldable pub storage_mapping_checks :
    SourceApplication → Environment → Profile → List PreflightCheck
unfolding has_target_class sort_strings join
storage_mapping_checks application target profile =
    let missing =
      names_without (has_target_class target.capabilities profile) application.inventory.pvcs in
    if App.is_compose application.source_type || is_empty application.inventory.pvcs
    then check "storage.mapping" "STORAGE" CheckStatus.passed "卷映射" "源应用没有需要检查的 Kubernetes PVC。" ""
      ∷ []
    else if is_empty missing
    then check "storage.mapping" "STORAGE" CheckStatus.passed "PVC StorageClass 映射"
        "所有 PVC 均可解析到目标 StorageClass。" ""
      ∷ []
    else check "storage.mapping" "STORAGE" CheckStatus.blocker "PVC StorageClass 映射"
        ("以下 PVC 没有可用的目标 StorageClass：" +++ join "、" (sort_strings missing))
        "补充 StorageClass 或外部 NFS 映射。"
      ∷ []

unfoldable pub registry_check : SourceApplication → Profile → PreflightCheck
registry_check application profile =
    if is_empty application.inventory.images || not (is_empty profile.registries)
    then check "registry.mapping" "IMAGE" CheckStatus.passed "镜像仓库映射" "镜像引用已有可用路径或 Registry 映射。" ""
    else check "registry.mapping" "IMAGE" CheckStatus.warning "镜像仓库映射"
        "未配置 Registry 映射，后续 Preflight 将直接检查源镜像可达性。" ""
