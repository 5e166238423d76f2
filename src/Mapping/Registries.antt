-- ===== src/Mapping/Registries.antt =====
-- internal/domain/mapping/model.go: `validateRegistryMappings`.
use k8s_migration.Base.{
  String, Bool, not, ◌||◌, List, [], ◌∷◌, str_eq, ◌+++◌, has_prefix, trim_slash, Result, ok,
  failure, require, ◌>>◌,
}
use k8s_migration.Mapping.Model.{KeyValue}

unfoldable pub prefix_overlaps : String → String → Bool
prefix_overlaps first second =
    let a = trim_slash first in
    let b = trim_slash second in
    str_eq a b || (has_prefix a (b +++ "/") || has_prefix b (a +++ "/"))

-- The inner loop: a pair against those behind it.
unfoldable pub validate_against : KeyValue → List KeyValue → Result (Unit {0})
validate_against value [] = ok tt
validate_against value (other ∷ others) =
    let rest = validate_against value others in
    do
      require (not (prefix_overlaps value.source other.source))
          (failure "registry source prefixes overlap")
      require (not (str_eq value.target other.target))
          (failure "registry mappings collide on target prefix")
      rest

unfoldable pub validate_registries : List KeyValue → Result (Unit {0})
unfolding validate_against
validate_registries [] = ok tt
validate_registries (value ∷ values) =
    let rest = validate_registries values in do validate_against value values; rest
