-- ===== src/Execution/StoredRows.antt =====
-- internal/repository/postgres/migration_progress.go: what storing transfers leaves in their table.
use k8s_migration.Base.{
  some, find, str_eq, ◌&&◌, ℕ, ◌≡◌, refl, ◌∙◌, Bool, true, false, List, [], ◌∷◌, ◌++◌, ◌==◌, any,
  update, eq_iff, All, inl, inr, Bool-cases, arith,
}
use k8s_migration.Base.Orders.{any-append}
use k8s_migration.Base.Selected.{any-update}
use k8s_migration.Execution.Progress.{VolumeTransfer, same_volume, is_counted, overwrite}

-- No two rows have the same key.
abbrev pub IsUnique : List VolumeTransfer → Type 0
IsUnique [] = Unit
IsUnique (row ∷ rows) = (any (same_volume row.run_id row) rows ≡ false) × IsUnique rows

same_volume-sym :
    (v w : VolumeTransfer) → same_volume v.run_id v w ≡ false → same_volume w.run_id w v ≡ false
same_volume-sym v w h = ground (
  arith,
  eq_iff v.namespace w.namespace,
  eq_iff w.namespace v.namespace,
  eq_iff v.source_volume w.source_volume,
  eq_iff w.source_volume v.source_volume,
)

pub IsUnique-update :
    (q : VolumeTransfer → Bool) (now : ℕ) (value : VolumeTransfer) (rows : List VolumeTransfer)
    → IsUnique rows
    → IsUnique (update q (overwrite now value) rows)
IsUnique-update q now value [] h = tt
IsUnique-update q now value (row ∷ rows) h =
    let kept = any-update (same_volume row.run_id row) q (overwrite now value) (λ _. refl) rows in
    let later = IsUnique-update q now value rows h.1 in
    elim (Bool-cases (q row)) [
      | inl e ↦ rw e (kept ∙ h.0, later)
      | inr e ↦ rw e (kept ∙ h.0, later)
    ]

pub IsUnique-append :
    (row : VolumeTransfer) (rows : List VolumeTransfer)
    → any (same_volume row.run_id row) rows ≡ false
    → IsUnique rows
    → IsUnique (rows ++ row ∷ [])
IsUnique-append row [] absent h = (refl, tt)
IsUnique-append row (r ∷ rs) absent h = (
  rw (any-append (same_volume r.run_id r) rs (row ∷ []))
      (rw h.0 (rw (same_volume-sym row r (ground arith)) refl)),
  IsUnique-append row rs (ground arith) h.1,
)

abbrev pub same_key : VolumeTransfer → VolumeTransfer → Bool
same_key v w = str_eq w.namespace v.namespace && str_eq w.source_volume v.source_volume

-- No two values have the same namespace and source volume.
abbrev pub AreApart : List VolumeTransfer → Type 0
AreApart [] = Unit
AreApart (v ∷ vs) = All (λ w. same_key v w ≡ false) vs × AreApart vs

-- A value that comes without an id, and has no negative number.
abbrev pub IsNew : VolumeTransfer → Type 0
IsNew v = (v.id ≡ 0) × (is_counted v ≡ true)

-- The row says what the value says.
pub record Shows (value row : VolumeTransfer) : Type 0 where
  pub engine : row.engine ≡ value.engine
  pub target_volume : row.target_volume ≡ value.target_volume
  pub total_bytes : row.total_bytes ≡ value.total_bytes
  pub transferred_bytes : row.transferred_bytes ≡ value.transferred_bytes
  pub throughput : row.throughput_bytes_per_second ≡ value.throughput_bytes_per_second
  pub retry_count : row.retry_count ≡ value.retry_count
  pub status : row.status ≡ value.status
  pub error_message : row.error_message ≡ value.error_message

-- What the table has after the values of a run have been stored: rows with a key of their own, for
-- each value a row that says what it says, and all other rows as they were.
pub record IsStored (run : ℕ) (before values after : List VolumeTransfer) : Type 0 where
  pub unique : IsUnique after
  pub stored :
      All
        (λ v. (row : VolumeTransfer) × (find (same_volume run v) after ≡ some row) × Shows v row)
        values
  pub others :
      (other : ℕ) (w : VolumeTransfer)
      → All (λ v. (other == run && same_key v w) ≡ false) values
      → find (same_volume other w) after ≡ find (same_volume other w) before
