-- ===== src/Assessment/Images.antt =====
-- internal/assessment/rules_extended.go: the rules on images.
use k8s_migration.Base.{
  String, Bool, true, false, ◌||◌, List, [], ◌∷◌, leb, ◌+++◌, equal_fold, join, contains_text,
  last_index, text_from, if◌then◌else◌,
}
use k8s_migration.Application.{ResourceReference, ImageSummary}
use k8s_migration.Assessment.Model.{Severity, Category}
use k8s_migration.Assessment.Engine.{Context, Finding}
use k8s_migration.Assessment.Rules.{gather}

abbrev image_ref : ImageSummary → ResourceReference
image_ref i = record { api_version = ""; kind = "Image"; namespace = ""; name = i.reference }

-- Without an `@`, the text in front of the first one is the whole reference.
unfoldable pub image_has_mutable_tag : String → Bool
unfolding contains_text last_index text_from equal_fold
image_has_mutable_tag reference =
    let last_slash = last_index b'/' reference in
    let last_colon = last_index b':' reference in
    if contains_text reference "@"
    then false
    else leb last_colon last_slash || equal_fold (text_from last_colon reference) "latest"

unfoldable pub image_reference : Context → List Finding
unfolding image_has_mutable_tag contains_text
image_reference context =
    gather
      (λ i.
        let mutable = image_has_mutable_tag i.reference in
        if contains_text i.reference "@sha256:"
        then []
        else (record {
          severity = if mutable then Severity.warning else Severity.info;
          category = Category.image;
          resource = image_ref i;
          rule_id = "IMAGE_MUTABLE_REFERENCE";
          title = if mutable then "镜像使用可变 latest 标签" else "镜像未固定 digest";
          description = i.reference +++ " 无法保证恢复时内容与源端一致。";
          remediation = "解析并锁定镜像 digest，必要时复制到目标 Harbor。";
          auto_fixable = true;
        })
          ∷ [])
      context.application.inventory.images

unfoldable pub image_architecture : Context → List Finding
unfolding join
image_architecture context = elim context.target.architectures [
  | [] ↦ []
  | a ∷ as' ↦
      gather
        (λ i. elim i.architectures [
          | [] ↦
              (record {
                severity = Severity.info;
                category = Category.image;
                resource = image_ref i;
                rule_id = "IMAGE_ARCHITECTURE_UNVERIFIED";
                title = "镜像架构尚未验证";
                description = "目标节点架构为 " +++ (join "、" (a ∷ as') +++ "，尚未读取镜像 manifest。");
                remediation = "配置 Registry 凭证后执行镜像存在性和架构检查。";
                auto_fixable = false;
              })
              ∷ []
          | _ ∷ _ ↦ []
        ])
        context.application.inventory.images
]
