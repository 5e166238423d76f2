-- ===== src/Execution/State.antt =====
-- internal/migration/velero_executor.go: the executor, and the state that it works on.
use k8s_migration.Base.{
  ℕ, String, Bool, Option, List, ◌+++◌, Error, Result, ok, err, failure, require, or_fail,
}
use k8s_migration.Base.Exec.{Exec}
use k8s_migration.Security.Crypto.{Bytes}
use k8s_migration.Migration.Model.{EventSeverity}
use k8s_migration.Catalog.{Catalog}
use k8s_migration.Store.Tables.Rows.{Db, Value}
use k8s_migration.Execution.Clients.{VeleroClient, KubernetesClient}
use k8s_migration.Execution.Progress.{VolumeTransfer, WorkloadReplicaSnapshot, append_event}

-- `vault` is `Resolve` of the vault, and `uuid_text` is `uuid.UUID.String`. `now` is the time of the
-- database, and `fresh` gives the UUIDs of new rows.
pub record VeleroExecutor (W : Type 0) : Type 0 where
  pub catalog : Catalog
  pub vault : ℕ → Result Bytes
  pub velero : VeleroClient W
  pub kubernetes : Option (KubernetesClient W)
  pub staging_image : String
  pub uuid_text : ℕ → String
  pub now : ℕ
  pub fresh : ℕ → ℕ

-- The database with the tables of the executor, and the clusters.
pub record State (W : Type 0) : Type 0 where
  pub db : Db
  pub snapshots : List WorkloadReplicaSnapshot
  pub transfers : List VolumeTransfer
  pub clusters : W

abbrev pub velero_namespace : String
velero_namespace = "velero"

abbrev pub backup_location_name : String
backup_location_name = "migration-minio"

abbrev pub resource_selection_label : String
resource_selection_label = "migration.smartx.com/selection"

-- `ErrUnsupportedExecution` with a text.
abbrev pub unsupported : String → Error
unsupported text = failure ("unsupported migration execution: " +++ text)

abbrev pub cancelled : Error
cancelled = failure "context canceled"

module _ {W : Type 0} where
  abbrev pub fail_with : {A : Type 0} → Error → Exec (State W) A
  fail_with problem s = (err problem, s)

  abbrev pub return : {A : Type 0} → A → Exec (State W) A
  return a s = (ok a, s)

  abbrev pub lift : {A : Type 0} → Result A → Exec (State W) A
  lift r s = (r, s)

  abbrev pub check : Bool → Error → Exec (State W) (Unit {0})
  check test problem = lift (require test problem)

  -- A call that only reads the clusters, and one that writes them.
  abbrev pub ask : {A : Type 0} → (W → Result A) → Exec (State W) A
  ask f s = (f s.clusters, s)

  abbrev pub act : {A : Type 0} → (W → Result A × W) → Exec (State W) A
  act f s = let (r, w) = f s.clusters in (r, record s { clusters = w })

  abbrev with_db : State W → Result Db → Result (Unit {0}) × State W
  with_db s (ok db) = (ok tt, record s { db = db })
  with_db s (err e) = (err e, s)

  -- A transaction on the database.
  abbrev pub change : (Db → Result Db) → Exec (State W) (Unit {0})
  change f s = with_db s (f s.db)

  abbrev pub read : {A : Type 0} → (Db → Result A) → Exec (State W) A
  read f s = (f s.db, s)

  -- `context.WithoutCancel` and an error that is dropped.
  abbrev pub ignore : {A : Type 0} → Exec (State W) A → Exec (State W) (Unit {0})
  ignore m s = (ok tt, (m s).1)

  -- A timer that runs off, or a context that has been cancelled.
  abbrev pub sleep : (W → W) → Exec (State W) (Unit {0})
  sleep passing s = (ok tt, record s { clusters = passing s.clusters })

  unfoldable pub emit :
      VeleroExecutor W
      → ℕ
      → String
      → EventSeverity
      → String
      → List (String × Value)
      → Exec (State W) (Unit {0})
  unfolding append_event
  emit e run type severity message detail =
      change (λ db. append_event e.now db run type severity message detail)

  -- The Kubernetes client, where one is configured.
  abbrev pub configured : VeleroExecutor W → String → Exec (State W) (KubernetesClient W)
  configured e text = lift (or_fail e.kubernetes (unsupported text))
