-- ===== src/Examples/WorkerExamples.antt =====
-- A run of the theorem on the registry mappings.
use k8s_migration.Base.{◌≤◌, ◌≡◌, refl, [], ◌∷◌, length, select, List}
use k8s_migration.Base.Text.{trim_slash, has_prefix}
use k8s_migration.Mapping.Model.{KeyValue}
use k8s_migration.Mapping.Profile.{sort_key_values}
use k8s_migration.Mapping.Registries.{prefix_overlaps, validate_registries}
use k8s_migration.Mapping.Rewrite.{applies, rewrite_prefix}
use k8s_migration.Mapping.Sorted.{validate_registries-rewrite_prefix}

-- Two registries, not in their order.
abbrev sample_registries : List KeyValue
sample_registries =
    (record { source = "quay.io/team"; target = "harbor/team" })
    ∷ (record { source = "docker.io/library"; target = "harbor/library" })
    ∷ []

validate_registries-rewrite_prefix_example :
    (length (select (applies "quay.io/team/shop:1") sample_registries) ≤ 1)
    × (rewrite_prefix "quay.io/team/shop:1" (sort_key_values sample_registries)
        ≡ rewrite_prefix "quay.io/team/shop:1" sample_registries)
unfolding validate_registries prefix_overlaps trim_slash has_prefix
validate_registries-rewrite_prefix_example =
    validate_registries-rewrite_prefix sample_registries refl "quay.io/team/shop:1"
