-- ===== src/Mapping/Profile.antt =====
-- internal/domain/mapping/model.go: `NormalizeAndValidate`. On an error the caller drops the profile.
use Prim.Native.String.{len}
use k8s_migration.Base.{
  ℕ, String, Bool, not, ◌||◌, List, [], ◌∷◌, ltb, str_eq, str_ltb, order_by, trim_space, Result, ok,
  failure, require, ◌>>=◌, ◌>>◌,
}
use k8s_migration.Environment.{Capabilities, StorageClass}
use k8s_migration.Mapping.Model.{
  KeyValue, NodeLabelMapping, normalize_group, validate_namespaces, validate_target_names,
  validate_node_labels,
}
use k8s_migration.Mapping.Registries.{validate_registries}
use k8s_migration.Mapping.Nfs.{NfsMapping, source_key, validate_nfs}

pub record Profile : Type 0 where
  pub id : ℕ
  pub name : String
  pub target_environment_id : ℕ
  pub storage : List KeyValue
  pub namespaces : List KeyValue
  pub ingress : List KeyValue
  pub registries : List KeyValue
  pub nfs : List NfsMapping
  pub node_labels : List NodeLabelMapping
  pub created_at : ℕ
  pub updated_at : ℕ

abbrev storage_class_names : List StorageClass → List String
storage_class_names [] = []
storage_class_names (c ∷ cs) = c.name ∷ storage_class_names cs

-- The sources of a group differ, so that the order is that of any sort.
unfoldable pub sort_key_values : List KeyValue → List KeyValue
sort_key_values values = order_by (λ a b. str_ltb a.source b.source) values

abbrev earlier_source : NfsMapping → NfsMapping → Bool
earlier_source a b = str_ltb (source_key a) (source_key b)

unfoldable pub normalize_and_validate :
    (String → Bool) → (String → Bool) → Capabilities → Profile → Result Profile
unfolding normalize_group validate_namespaces validate_registries validate_target_names
    validate_node_labels validate_nfs sort_key_values
normalize_and_validate is_label is_name target p = do
  let classes = storage_class_names target.storage_classes
  require (not (str_eq (trim_space p.name) "" || ltb 128 (len (trim_space p.name))))
      (failure "profile name is required and must not exceed 128 characters")
  storage ← normalize_group "storage" [] p.storage
  namespaces ← normalize_group "namespace" [] p.namespaces
  ingress ← normalize_group "ingress" [] p.ingress
  registries ← normalize_group "registry" [] p.registries
  validate_namespaces is_label [] namespaces
  validate_registries registries
  validate_target_names "storage" storage classes
  validate_target_names "ingress" ingress target.ingress_classes
  node_labels ← validate_node_labels is_name [] [] p.node_labels
  nfs ← validate_nfs classes [] p.nfs
  ok (record p {
    name = trim_space p.name;
    storage = sort_key_values storage;
    namespaces = sort_key_values namespaces;
    ingress = sort_key_values ingress;
    registries = sort_key_values registries;
    node_labels = order_by (λ a b. str_ltb a.source b.source) node_labels;
    nfs = order_by earlier_source nfs;
  })
