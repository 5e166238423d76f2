-- ===== src/Mapping/Nfs.antt =====
-- internal/domain/mapping/model.go: `validateNFS`.
use k8s_migration.Base.{
  String, Bool, true, not, ◌&&◌, ◌||◌, List, [], ◌∷◌, str_eq, ◌+++◌, trim_space, has_prefix, any,
  Result, ok, failure, require, ◌>>=◌, ◌>>◌,
}

pub record NfsMapping : Type 0 where
  pub source_server : String
  pub source_export : String
  pub target_server : String
  pub target_export : String
  pub target_storage_class : String

abbrev trimmed : NfsMapping → NfsMapping
trimmed m = record {
  source_server = trim_space m.source_server;
  source_export = trim_space m.source_export;
  target_server = trim_space m.target_server;
  target_export = trim_space m.target_export;
  target_storage_class = trim_space m.target_storage_class;
}

-- A server and an export as one text.
abbrev pub source_key : NfsMapping → String
source_key m = m.source_server +++ "\0" +++ m.source_export

abbrev pub target_key : NfsMapping → String
target_key m = m.target_server +++ "\0" +++ m.target_export

abbrev pub same_source : NfsMapping → NfsMapping → Bool
same_source a b = str_eq (source_key a) (source_key b)

abbrev pub same_target : NfsMapping → NfsMapping → Bool
same_target a b = str_eq (target_key a) (target_key b)

abbrev pub is_complete : NfsMapping → Bool
is_complete m = not (
    str_eq m.source_server ""
    || (str_eq m.source_export ""
        || (str_eq m.target_server ""
            || (str_eq m.target_export "" || str_eq m.target_storage_class ""))))

abbrev pub is_known : List String → String → Bool
is_known [] name = true
is_known (c ∷ cs) name = any (λ n. str_eq n name) (c ∷ cs)

-- `seen` has the mappings before. Their sources differ from that of the next one, so that any
-- target which is there belongs to another source.
unfoldable pub validate_nfs :
    List String → List NfsMapping → List NfsMapping → Result (List NfsMapping)
validate_nfs classes seen [] = ok []
validate_nfs classes seen (m ∷ ms) =
    let item = trimmed m in
    let rest = validate_nfs classes (item ∷ seen) ms in
    do
      require (is_complete item) (failure "NFS source, target and target StorageClass are required")
      require (has_prefix item.source_export "/" && has_prefix item.target_export "/")
          (failure "NFS exports must be absolute paths")
      require (not (any (same_source item) seen)) (failure "duplicate NFS source")
      require (not (any (same_target item) seen)) (failure "NFS sources collide on target")
      require (is_known classes item.target_storage_class)
          (failure "target storage was not discovered")
      items ← rest
      ok (item ∷ items)
