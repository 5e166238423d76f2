-- ===== src/Execution/Transfers.antt =====
-- internal/migration/velero_executor.go: `recordTransfers` and `recordDataMoverDownloads`. Bytes are
-- numbers of 64 bits. The error of `VolumeTransfers` is dropped for the data mover, whose uploads are
-- asked for instead.
use k8s_migration.Base.{
  ℕ, String, Bool, ◌&&◌, ◌||◌, List, [], ◌∷◌, map, str_eq, ◌+++◌, ◌==◌, equal_fold, length,
  if◌then◌else◌, Result, ok, err,
}
use k8s_migration.Base.Int64.{add64, less64}
use k8s_migration.Base.Exec.{Exec, ◌>>=◌, ◌>>◌}
use k8s_migration.Migration.Model.{VolumeMode}
use k8s_migration.Execution.Clients.{VolumeProgress}
use k8s_migration.Execution.Progress.{
  TransferEngine, TransferStatus, VolumeTransfer, upsert_volume_transfers, update_run_bytes,
}
use k8s_migration.Execution.State.{VeleroExecutor, State, velero_namespace, return, ask, change}
use k8s_migration.Execution.Context.{ExecutionContext}

unfoldable pub transfer_status : String → TransferStatus
unfolding equal_fold
transfer_status phase =
    if equal_fold phase "inprogress"
      || (equal_fold phase "running"
          || (equal_fold phase "prepared" || equal_fold phase "accepted"))
    then TransferStatus.running
    else if equal_fold phase "completed"
    then TransferStatus.completed
    else if equal_fold phase "failed" || equal_fold phase "failedvalidation"
    then TransferStatus.failed
    else if equal_fold phase "canceled" || equal_fold phase "cancelled"
    then TransferStatus.cancelled
    else TransferStatus.pending

-- No more is done than there is, where the size is known.
abbrev pub done_bytes : VolumeProgress → ℕ
done_bytes value =
    if less64 0 value.total_bytes && less64 value.total_bytes value.bytes_done
    then value.total_bytes
    else value.bytes_done

abbrev pub transferred_sum : List VolumeProgress → ℕ
transferred_sum [] = 0
transferred_sum (v ∷ vs) = add64 (done_bytes v) (transferred_sum vs)

abbrev pub total_sum : List VolumeProgress → ℕ
total_sum [] = 0
total_sum (v ∷ vs) = add64 v.total_bytes (total_sum vs)

abbrev pub is_csi_data_mover : VolumeMode → Bool
is_csi_data_mover VolumeMode.csi_data_mover = Bool.true
is_csi_data_mover _ = Bool.false

abbrev pub transfer_of : ℕ → TransferEngine → String → String → VolumeProgress → VolumeTransfer
transfer_of run engine namespace source_volume value = record {
  id = 0;
  run_id = run;
  engine = engine;
  namespace = namespace;
  source_volume = source_volume;
  target_volume = value.volume;
  total_bytes = value.total_bytes;
  transferred_bytes = done_bytes value;
  throughput_bytes_per_second = 0;
  retry_count = 0;
  checksum_status = "PENDING";
  status = transfer_status value.phase;
  error_message = value.message;
  created_at = 0;
  updated_at = 0;
}

abbrev pub pod_transfer : ExecutionContext → VolumeProgress → VolumeTransfer
pod_transfer c value =
    transfer_of c.run.id TransferEngine.velero_fsb c.application.namespace
      (value.pod +++ ("/" +++ value.volume)) value

abbrev pub data_mover_transfer : ExecutionContext → VolumeProgress → VolumeTransfer
data_mover_transfer c value =
    transfer_of c.run.id TransferEngine.csi_data_mover
      (if str_eq value.pod "" then c.application.namespace else value.pod) value.volume value

module _ {W : Type 0} where
  abbrev pub with_transfers : State W → Result (List VolumeTransfer) → Result (Unit {0}) × State W
  with_transfers s (ok rows) = (ok tt, record s { transfers = rows })
  with_transfers s (err e) = (err e, s)

  unfoldable pub store_transfers :
      VeleroExecutor W → ℕ → List VolumeTransfer → Exec (State W) (Unit {0})
  unfolding upsert_volume_transfers
  store_transfers e run values s =
      with_transfers s (upsert_volume_transfers e.fresh e.now s.transfers run values)

  unfoldable pub store_bytes : VeleroExecutor W → ℕ → ℕ → ℕ → Exec (State W) (Unit {0})
  unfolding update_run_bytes
  store_bytes e run transferred total =
      change (λ db. update_run_bytes e.now db run transferred total)

  unfoldable pub record_values :
      VeleroExecutor W
      → ExecutionContext
      → List VolumeProgress
      → List VolumeTransfer
      → Exec (State W) (ℕ × ℕ)
  unfolding store_transfers store_bytes
  record_values e c values transfers = do
    store_transfers e c.run.id transfers
    store_bytes e c.run.id (transferred_sum values) (total_sum values)
    return (transferred_sum values, total_sum values)

  unfoldable pub record_transfers :
      VeleroExecutor W → ExecutionContext → String → Exec (State W) (ℕ × ℕ)
  unfolding record_values transfer_status
  record_transfers e c backup =
      if is_csi_data_mover c.plan.strategy.volume_mode
      then (do
        values ← ask (e.velero.data_uploads c.source_kube velero_namespace backup)
        record_values e c values (map (data_mover_transfer c) values))
      else (do
        values ← ask (e.velero.volume_transfers c.source_kube velero_namespace backup)
        record_values e c values (map (pod_transfer c) values))

  unfoldable pub record_data_mover_downloads :
      VeleroExecutor W → ExecutionContext → String → Exec (State W) (ℕ × ℕ)
  unfolding record_values transfer_status
  record_data_mover_downloads e c restore = do
    values ← ask (e.velero.data_downloads c.target_kube velero_namespace restore)
    (if length values == 0
        then return (0, 0)
        else record_values e c values (map (data_mover_transfer c) values))
