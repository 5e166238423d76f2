-- ===== src/Mapping/Rewrite.antt =====
-- internal/transform/rules.go: `rewritePrefix`, which applies the registry mappings of a profile to the
-- image of a container.
use Prim.Native.String.{[], ◌∷◌}
use k8s_migration.Base.{
  String, Bool, ◌||◌, List, [], ◌∷◌, str_eq, ◌+++◌, has_prefix, trim_slash, drop_prefix,
  if◌then◌else◌,
}
use k8s_migration.Mapping.Model.{KeyValue}

-- The image is the source of the mapping, or lies below it.
unfoldable pub applies : String → KeyValue → Bool
applies value m =
    let source = trim_slash m.source in str_eq value source || has_prefix value (source +++ "/")

unfoldable pub rewrite_prefix : String → List KeyValue → String
unfolding applies
rewrite_prefix value [] = value
rewrite_prefix value (m ∷ ms) =
    let rest = rewrite_prefix value ms in
    if applies value m
    then trim_slash m.target +++ drop_prefix value (trim_slash m.source)
    else rest
