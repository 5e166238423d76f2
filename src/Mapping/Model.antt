-- ===== src/Mapping/Model.antt =====
-- internal/domain/mapping/model.go: the records of a mapping profile, and the checks of pairs of
-- names. A check returns the pairs as it leaves them, trimmed. An error text is kept without the
-- names that it quotes.
use k8s_migration.Base.{
  String, Bool, false, not, ◌&&◌, ◌||◌, List, [], ◌∷◌, Option, none, some, str_eq, ◌+++◌,
  trim_space, equal_fold, if◌then◌else◌, any, Result, ok, err, failure, require, ◌>>=◌, ◌>>◌,
}

pub record KeyValue : Type 0 where
  pub source : String
  pub target : String

pub record NodeLabelMapping : Type 0 where
  pub source : String
  pub target : String
  pub action : String

-- The trimmed pairs of a group, whose sources differ. `seen` has the sources before.
unfoldable pub normalize_group : String → List String → List KeyValue → Result (List KeyValue)
normalize_group name seen [] = ok []
normalize_group name seen (m ∷ ms) =
    let source = trim_space m.source in
    let target = trim_space m.target in
    let rest = normalize_group name (source ∷ seen) ms in
    do
      require (not (str_eq source "" || str_eq target ""))
          (failure (name +++ " mapping source and target are required"))
      require (not (any (λ s. str_eq s source) seen))
          (failure ("duplicate " +++ name +++ " mapping source"))
      normalized ← rest
      ok ((record { source = source; target = target }) ∷ normalized)

-- The source that a map of targets has for a target: `targets` has the newest pair first.
abbrev pub source_of : String → List KeyValue → Option String
source_of target [] = none
source_of target (m ∷ ms) = if str_eq m.target target then some m.source else source_of target ms

abbrev pub is_other : String → Option String → Bool
is_other source none = false
is_other source (some stored) = not (str_eq stored source)

-- `is_label` is `IsDNS1123Label` of k8s.io/apimachinery without an error.
unfoldable pub validate_namespaces :
    (String → Bool) → List KeyValue → List KeyValue → Result (Unit {0})
validate_namespaces is_label targets [] = ok tt
validate_namespaces is_label targets (m ∷ ms) =
    let rest = validate_namespaces is_label (m ∷ targets) ms in
    do
      require (is_label m.source && is_label m.target)
          (failure "namespace mapping must use DNS labels")
      require (not (is_other m.source (source_of m.target targets)))
          (failure "namespace mappings collide on target")
      rest

abbrev contains : List String → String → Bool
contains names name = any (λ n. str_eq n name) names

abbrev validate_targets : String → List KeyValue → List String → Result (Unit {0})
validate_targets kind [] available = ok tt
validate_targets kind (m ∷ ms) available =
    let rest = validate_targets kind ms available in
    do
      require (contains available m.target) (failure ("target " +++ kind +++ " was not discovered"))
      rest

-- Where nothing was discovered, every name passes.
unfoldable pub validate_target_names : String → List KeyValue → List String → Result (Unit {0})
validate_target_names kind values [] = ok tt
validate_target_names kind values (name ∷ names) = validate_targets kind values (name ∷ names)

abbrev put_label :
    NodeLabelMapping → Result (List NodeLabelMapping) → Result (List NodeLabelMapping)
put_label m rest = do labels ← rest; ok (m ∷ labels)

-- `is_name` is `IsQualifiedName` of k8s.io/apimachinery without an error. An action is compared in
-- upper case.
unfoldable pub validate_node_labels :
    (String → Bool)
    → List String
    → List KeyValue
    → List NodeLabelMapping
    → Result (List NodeLabelMapping)
validate_node_labels is_name seen targets [] = ok []
validate_node_labels is_name seen targets (m ∷ ms) =
    let source = trim_space m.source in
    let target = trim_space m.target in
    let action = trim_space m.action in
    let pair : KeyValue = record { source = source; target = target } in
    let mapped = validate_node_labels is_name (source ∷ seen) (pair ∷ targets) ms in
    let dropped = validate_node_labels is_name (source ∷ seen) targets ms in
    do
      require (is_name source) (failure "invalid source node label")
      require (not (any (λ s. str_eq s source) seen))
          (failure "duplicate node label mapping source")
      (if equal_fold action "MAP"
          then (do
            require (is_name target) (failure "invalid target node label")
            require (not (is_other source (source_of target targets)))
                (failure "node label mappings collide on target")
            put_label (record { source = source; target = target; action = "MAP" }) mapped)
          else if equal_fold action "DROP"
          then put_label (record { source = source; target = ""; action = "DROP" }) dropped
          else err (failure "node label action must be MAP or DROP"))
