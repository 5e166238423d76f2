-- ===== src/Execution/Bytes.antt =====
-- internal/migration/velero_executor.go: the progress in bytes that a step stores.
use k8s_migration.Base.{
  ℕ, ◌+◌, ◌≤◌, ◌<◌, ◌≡◌, refl, true, false, not, ◌||◌, ◌&&◌, List, [], ◌∷◌, ltb, ◌==◌, ok, err,
  failure, arith, All, any, if◌then◌else◌,
}
use k8s_migration.Base.Int64.{is_negative, add64, less64}
use k8s_migration.Store.Tables.{update_run}
use k8s_migration.Execution.Clients.{VolumeProgress}
use k8s_migration.Execution.Progress.{VolumeTransfer, upsert_volume_transfers, update_run_bytes}
use k8s_migration.Execution.State.{VeleroExecutor, State}
use k8s_migration.Execution.Context.{ExecutionContext}
use k8s_migration.Execution.Transfers.{
  done_bytes, transferred_sum, total_sum, store_transfers, store_bytes, record_values,
}

-- What a volume reports is not negative, and its size is known as soon as some of it has been moved.
abbrev pub IsSized : VolumeProgress → Type 0
IsSized v = (v.bytes_done < 9223372036854775808) × (v.total_bytes ≡ 0 → v.bytes_done ≡ 0)

-- What has been moved of a volume, at most the whole of it.
abbrev pub moved : VolumeProgress → ℕ
moved v = if ltb v.total_bytes v.bytes_done then v.total_bytes else v.bytes_done

-- The sums as numbers without a bound.
abbrev pub moved_sum : List VolumeProgress → ℕ
moved_sum [] = 0
moved_sum (v ∷ vs) = moved v + moved_sum vs

abbrev pub size_sum : List VolumeProgress → ℕ
size_sum [] = 0
size_sum (v ∷ vs) = v.total_bytes + size_sum vs

moved-le : (v : VolumeProgress) → moved v ≤ v.total_bytes
moved-le v = ground arith

moved_sum-le : (vs : List VolumeProgress) → moved_sum vs ≤ size_sum vs
moved_sum-le [] = omega arith
moved_sum-le (v ∷ vs) = omega (arith, moved-le v, moved_sum-le vs)

done_bytes-moved :
    (v : VolumeProgress) → v.total_bytes < 9223372036854775808 → IsSized v → done_bytes v ≡ moved v
done_bytes-moved v small sized = ground (arith, sized.0, sized.1)

add64-small : (a b : ℕ) → a + b < 9223372036854775808 → add64 a b ≡ a + b
add64-small a b h = omega arith

total_sum-size :
    (vs : List VolumeProgress) → size_sum vs < 9223372036854775808 → total_sum vs ≡ size_sum vs
total_sum-size [] h = refl
total_sum-size (v ∷ vs) h = rw (total_sum-size vs (omega arith)) (add64-small _ _ h)

transferred_sum-moved :
    (vs : List VolumeProgress)
    → size_sum vs < 9223372036854775808
    → All IsSized vs
    → transferred_sum vs ≡ moved_sum vs
transferred_sum-moved [] h sized = refl
transferred_sum-moved (v ∷ vs) h sized =
    rw (done_bytes-moved v (omega arith) sized.0, transferred_sum-moved vs (omega arith) sized.1)
      (add64-small _ _ (omega (arith, h, moved-le v, moved_sum-le vs)))

-- What a record of the transfers stores: their rows, and the sums of the run.
abbrev pub recorded :
    {W : Type 0} → ℕ → ℕ → List VolumeProgress → List VolumeTransfer → State W → State W
recorded now run vs rows s = record s {
  transfers = rows;
  db =
      update_run run
        (λ r. record r {
          bytes_transferred = moved_sum vs;
          bytes_total = size_sum vs;
          updated_at = now;
        })
        s.db;
}

accepted :
    (m n : ℕ)
    → m ≤ n
    → n < 9223372036854775808
    → not (is_negative m || (is_negative n || (less64 0 n && less64 n m))) ≡ true
accepted m n h k = ground arith

refused :
    (m n : ℕ)
    → n < m
    → 0 < n
    → m < 9223372036854775808
    → not (is_negative m || (is_negative n || (less64 0 n && less64 n m))) ≡ false
refused m n h k b = ground arith

unsized_bytes : (v : VolumeProgress) → v.total_bytes ≡ 0 → done_bytes v ≡ v.bytes_done
unsized_bytes v h = rw h refl

done_total :
    (v : VolumeProgress)
    → v.total_bytes < 9223372036854775808
    → v.bytes_done ≡ v.total_bytes
    → done_bytes v ≡ v.total_bytes
done_total v small same = ground (arith, same)

-- Where all volumes are done, as much has been moved as there is.
transferred_sum-size :
    (vs : List VolumeProgress)
    → size_sum vs < 9223372036854775808
    → All (λ u. u.bytes_done ≡ u.total_bytes) vs
    → transferred_sum vs ≡ size_sum vs
transferred_sum-size [] h rest = refl
transferred_sum-size (v ∷ vs) h rest =
    rw (done_total v (omega arith) rest.0, transferred_sum-size vs (omega arith) rest.1)
      (add64-small _ _ h)

transferred_sum-unknown :
    (v : VolumeProgress) (vs : List VolumeProgress)
    → v.total_bytes ≡ 0
    → All (λ u. u.bytes_done ≡ u.total_bytes) vs
    → v.bytes_done + size_sum vs < 9223372036854775808
    → transferred_sum (v ∷ vs) ≡ v.bytes_done + size_sum vs
transferred_sum-unknown v vs unknown rest small =
    rw (unsized_bytes v unknown, transferred_sum-size vs (omega arith) rest) (add64-small _ _ small)

total_sum-unknown :
    (v : VolumeProgress) (vs : List VolumeProgress)
    → v.total_bytes ≡ 0
    → size_sum vs < 9223372036854775808
    → total_sum (v ∷ vs) ≡ size_sum vs
total_sum-unknown v vs unknown small = rw (unknown, total_sum-size vs small) (omega (arith, small))

module _ {W : Type 0} (e : VeleroExecutor W) (c : ExecutionContext)
    (transfers rows : List VolumeTransfer) (s : State W)
    (stored : upsert_volume_transfers e.fresh e.now s.transfers c.run.id transfers ≡ ok rows)
    (there : any (λ r. r.id == c.run.id) s.db.runs ≡ true) where
  -- Where the rows of the transfers can be stored, the run is there, no volume reports a negative number, each volume of which bytes have been moved has a known size, and the sizes together are less than 2 ^ 63, recording the transfers succeeds: it returns and stores the sums over the volumes, in which nothing has overflowed and of which the first is at most the second.
  pub record_values-sums :
      (vs : List VolumeProgress)
      → All IsSized vs
      → size_sum vs < 9223372036854775808
      → (record_values e c vs transfers s
          ≡ (ok (moved_sum vs, size_sum vs), recorded e.now c.run.id vs rows s))
        × (moved_sum vs ≤ size_sum vs)
  unfolding record_values store_transfers store_bytes update_run_bytes
  record_values-sums vs sized small = (
    rw (stored, total_sum-size vs small, transferred_sum-moved vs small sized)
        (rw (accepted (moved_sum vs) (size_sum vs) (moved_sum-le vs) small) (rw there refl)),
    moved_sum-le vs,
  )

  -- Where the rows of the transfers can be stored, one volume has no known size although bytes of it have been moved, all other volumes are done, at least one of them is not empty, and the bytes together are less than 2 ^ 63, recording the transfers fails, since the progress is refused as invalid.
  pub record_values-unknown :
      (v : VolumeProgress) (vs : List VolumeProgress)
      → v.total_bytes ≡ 0
      → 0 < v.bytes_done
      → All (λ u. u.bytes_done ≡ u.total_bytes) vs
      → 0 < size_sum vs
      → v.bytes_done + size_sum vs < 9223372036854775808
      → (record_values e c (v ∷ vs) transfers s).0
        ≡ err (failure "migration byte progress is invalid")
  unfolding record_values store_transfers store_bytes update_run_bytes
  record_values-unknown v vs unknown some_bytes rest some_total small =
      rw
        (
          stored,
          transferred_sum-unknown v vs unknown rest small,
          total_sum-unknown v vs unknown (omega arith),
        )
        (rw
          (refused (v.bytes_done + size_sum vs) (size_sum vs) (omega arith) (omega arith)
            (omega arith))
          refl)
