-- ===== src/Execution/Progress.antt =====
-- internal/repository/postgres/migration_progress.go: the tables of transfers and of replica
-- snapshots, with the records of internal/domain/migration/model.go. `fresh` gives the new UUIDs.
-- The run that transfers and snapshots refer to is there, since a step has read it.
use k8s_migration.Base.{
  ℕ, ◌+◌, String, Bool, not, ◌&&◌, ◌||◌, List, [], ◌∷◌, ◌++◌, ◌==◌, str_eq, str_ltb, any, select,
  update, order_by, if◌then◌else◌, Result, ok, not_found, conflict, failure, require, ◌>>◌,
}
use k8s_migration.Base.Int64.{is_negative, less64}
use k8s_migration.Migration.Model.{EventSeverity}
use k8s_migration.Store.Tables.{insert_event, update_run}
use k8s_migration.Store.Tables.Rows.{Db, Value}

pub data TransferEngine : Type 0 where
  velero_fsb csi_data_mover compose_kopia : TransferEngine

pub data TransferStatus : Type 0 where
  pending running completed failed cancelled : TransferStatus

pub record VolumeTransfer : Type 0 where
  pub id : ℕ
  pub run_id : ℕ
  pub engine : TransferEngine
  pub namespace : String
  pub source_volume : String
  pub target_volume : String
  pub total_bytes : ℕ
  pub transferred_bytes : ℕ
  pub throughput_bytes_per_second : ℕ
  pub retry_count : ℕ
  pub checksum_status : String
  pub status : TransferStatus
  pub error_message : String
  pub created_at : ℕ
  pub updated_at : ℕ

pub record WorkloadReplicaSnapshot : Type 0 where
  pub id : ℕ
  pub run_id : ℕ
  pub namespace : String
  pub kind : String
  pub name : String
  pub replicas : ℕ
  pub created_at : ℕ
  pub updated_at : ℕ

-- UNIQUE (migration_run_id, namespace, source_volume)
abbrev pub same_volume : ℕ → VolumeTransfer → VolumeTransfer → Bool
same_volume run value row =
    row.run_id == run
    && (str_eq row.namespace value.namespace && str_eq row.source_volume value.source_volume)

abbrev pub completed_transfer : (ℕ → ℕ) → ℕ → VolumeTransfer → VolumeTransfer
completed_transfer fresh index value = record value {
  id = if value.id == 0 then fresh index else value.id;
  checksum_status = if str_eq value.checksum_status "" then "PENDING" else value.checksum_status;
}

-- ON CONFLICT … DO UPDATE
abbrev pub overwrite : ℕ → VolumeTransfer → VolumeTransfer → VolumeTransfer
overwrite now value row = record value {
  id = row.id;
  run_id = row.run_id;
  namespace = row.namespace;
  source_volume = row.source_volume;
  created_at = row.created_at;
  updated_at = now;
}

-- CHECK (total_bytes >= 0), and so for the other bytes
abbrev pub is_counted : VolumeTransfer → Bool
is_counted v = not (
    is_negative v.total_bytes
    || (is_negative v.transferred_bytes || is_negative v.throughput_bytes_per_second))

-- The key of a row that is inserted must be new. The values come one after another.
unfoldable pub upsert_rows :
    (ℕ → ℕ) → ℕ → ℕ → ℕ → List VolumeTransfer → List VolumeTransfer → Result (List VolumeTransfer)
upsert_rows fresh now run index rows [] = ok rows
upsert_rows fresh now run index rows (v ∷ vs) =
    let value = completed_transfer fresh index v in
    let updated = update (same_volume run value) (overwrite now value) rows in
    let inserted =
      rows ++ (record value { run_id = run; created_at = now; updated_at = now }) ∷ [] in
    let known = any (same_volume run value) rows in
    let next = if known then updated else inserted in
    let rest = upsert_rows fresh now run (index + 1) next vs in
    do
      require (is_counted v) (failure "upsert volume transfer")
      require (known || not (any (λ row. row.id == value.id) rows)) conflict
      rest

unfoldable pub upsert_volume_transfers :
    (ℕ → ℕ) → ℕ → List VolumeTransfer → ℕ → List VolumeTransfer → Result (List VolumeTransfer)
unfolding upsert_rows
upsert_volume_transfers fresh now rows run values =
    require (not (run == 0)) (failure "migration run ID is required")
    >> upsert_rows fresh now run 0 rows values

-- ORDER BY namespace,source_volume
unfoldable pub list_volume_transfers : List VolumeTransfer → ℕ → List VolumeTransfer
list_volume_transfers rows run =
    order_by
      (λ a b.
        str_ltb a.namespace b.namespace
        || (str_eq a.namespace b.namespace && str_ltb a.source_volume b.source_volume))
      (select (λ row. row.run_id == run) rows)

unfoldable pub update_run_bytes : ℕ → Db → ℕ → ℕ → ℕ → Result Db
update_run_bytes now db run transferred total = do
  require
      (not (
        is_negative transferred
        || (is_negative total || (less64 0 total && less64 total transferred))))
      (failure "migration byte progress is invalid")
  require (any (λ r. r.id == run) db.runs) not_found
  ok (
      update_run run
        (λ r. record r { bytes_transferred = transferred; bytes_total = total; updated_at = now })
        db)

-- An event has a severity, and its run is there.
unfoldable pub append_event :
    ℕ → Db → ℕ → String → EventSeverity → String → List (String × Value) → Result Db
append_event now db run type severity message detail = do
  require (not (run == 0 || (str_eq type "" || str_eq message "")))
      (failure "migration event run, type and message are required")
  require (any (λ r. r.id == run) db.runs) (failure "append migration event")
  ok (insert_event run type severity message detail now db)

-- UNIQUE (migration_run_id, namespace, kind, name)
abbrev pub is_snapshot : ℕ → String → String → String → WorkloadReplicaSnapshot → Bool
is_snapshot run namespace kind name row =
    row.run_id == run
    && (str_eq row.namespace namespace && (str_eq row.kind kind && str_eq row.name name))

-- CHECK (kind IN ('Deployment', 'StatefulSet'))
abbrev pub is_scalable_kind : String → Bool
is_scalable_kind kind = str_eq kind "Deployment" || str_eq kind "StatefulSet"

-- ON CONFLICT … DO NOTHING
unfoldable pub save_rows :
    (ℕ → ℕ)
    → ℕ
    → ℕ
    → ℕ
    → List WorkloadReplicaSnapshot
    → List WorkloadReplicaSnapshot
    → Result (List WorkloadReplicaSnapshot)
save_rows fresh now run index rows [] = ok rows
save_rows fresh now run index rows (v ∷ vs) =
    let id = if v.id == 0 then fresh index else v.id in
    let known = any (is_snapshot run v.namespace v.kind v.name) rows in
    let inserted =
      rows ++ (record v { id = id; run_id = run; created_at = now; updated_at = now }) ∷ [] in
    let next = if known then rows else inserted in
    let rest = save_rows fresh now run (index + 1) next vs in
    do
      require (v.run_id == 0 || v.run_id == run)
          (failure "workload replica snapshot belongs to another migration run")
      require (is_scalable_kind v.kind) (failure "save workload replica snapshot")
      require (known || not (any (λ row. row.id == id) rows)) conflict
      rest

unfoldable pub save_workload_replica_snapshots :
    (ℕ → ℕ)
    → ℕ
    → List WorkloadReplicaSnapshot
    → ℕ
    → List WorkloadReplicaSnapshot
    → Result (List WorkloadReplicaSnapshot)
unfolding save_rows
save_workload_replica_snapshots fresh now rows run values =
    require (not (run == 0)) (failure "migration run ID is required")
    >> save_rows fresh now run 0 rows values

-- ORDER BY namespace,kind,name
unfoldable pub list_workload_replica_snapshots :
    List WorkloadReplicaSnapshot → ℕ → List WorkloadReplicaSnapshot
list_workload_replica_snapshots rows run =
    order_by
      (λ a b.
        str_ltb a.namespace b.namespace
        || (str_eq a.namespace b.namespace
            && (str_ltb a.kind b.kind || (str_eq a.kind b.kind && str_ltb a.name b.name))))
      (select (λ row. row.run_id == run) rows)
