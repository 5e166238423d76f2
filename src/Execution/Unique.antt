-- ===== src/Execution/Unique.antt =====
-- internal/repository/postgres/migration_progress.go: the key of the table of transfers.
use k8s_migration.Base.{
  ℕ, ◌≤◌, ◌≡◌, refl, Bool, false, List, [], ◌∷◌, ◌++◌, ◌==◌, any, update, if◌then◌else◌,
}
use k8s_migration.Execution.Progress.{VolumeTransfer, same_volume, completed_transfer, overwrite}

module _ (fresh : ℕ → ℕ) (distinct : (i j : ℕ) → fresh i ≡ fresh j → i ≡ j) (now run : ℕ) where
  -- The UUIDs from the index on are not in the table.
  abbrev pub IsFree : ℕ → List VolumeTransfer → Type 0
  IsFree index rows = (j : ℕ) → index ≤ j → any (λ row. row.id == fresh j) rows ≡ false

  abbrev known : List VolumeTransfer → VolumeTransfer → Bool
  known rows v = any (same_volume run v) rows

  abbrev inserted : ℕ → VolumeTransfer → VolumeTransfer
  inserted index v = record (completed_transfer fresh index v) {
    run_id = run;
    created_at = now;
    updated_at = now;
  }

  abbrev next_rows : ℕ → List VolumeTransfer → VolumeTransfer → List VolumeTransfer
  next_rows index rows v =
      if known rows v
      then update (same_volume run v) (overwrite now (completed_transfer fresh index v)) rows
      else rows ++ inserted index v ∷ []

  new_id : (index : ℕ) (v : VolumeTransfer) → v.id ≡ 0 → (inserted index v).id ≡ fresh index
  new_id index v own = rw own refl
