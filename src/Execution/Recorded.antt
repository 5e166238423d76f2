-- ===== src/Execution/Recorded.antt =====
-- internal/repository/postgres/migration_progress.go: what has been saved of the replicas of a workload
-- stays saved.
use k8s_migration.Base.{
  ℕ, ◌+◌, ◌≡◌, refl, String, Bool, true, false, not, ◌&&◌, ◌||◌, List, [], ◌∷◌, ◌++◌, map, str_eq,
  ◌==◌, any, All, ◌⊎◌, inl, inr, if◌then◌else◌, Bool-cases, eq_iff, Ensures, succeeds,
  require-Ensures, arith,
}
use k8s_migration.Base.Tables.{All-append}
use k8s_migration.Base.Orders.{any-append}
use k8s_migration.Execution.Clients.{ScalableWorkload}
use k8s_migration.Execution.Progress.{
  WorkloadReplicaSnapshot, is_snapshot, is_scalable_kind, save_rows,
  save_workload_replica_snapshots,
}
use k8s_migration.Execution.Quiesce.{snapshot_of}
use k8s_migration.Execution.Keeps.{Snapshots}

abbrev pub is_workload : String → String → String → ScalableWorkload → Bool
is_workload namespace kind name x =
    str_eq x.namespace namespace && (str_eq x.kind kind && str_eq x.name name)

abbrev pub Sized : String → String → String → ℕ → ScalableWorkload → Type 0
Sized namespace kind name n x = is_workload namespace kind name x ≡ true → x.replicas ≡ n

module _ (run : ℕ) (namespace kind name : String) (n : ℕ) where
  abbrev pub Agrees : WorkloadReplicaSnapshot → Type 0
  Agrees row = is_snapshot run namespace kind name row ≡ true → row.replicas ≡ n

  -- A snapshot of the workload is there, and each has its replicas.
  abbrev pub Recorded : Snapshots → Type 0
  Recorded rows = (any (is_snapshot run namespace kind name) rows ≡ true) × All Agrees rows

-- Two keys that agree with a third one.
same_text : (s t : String) → str_eq s t ≡ true → s ≡ t
same_text s t h = ground (arith, eq_iff s t)

pub is_workload-eq :
    (x : ScalableWorkload) (namespace kind name : String)
    → is_workload namespace kind name x ≡ true
    → (x.namespace ≡ namespace) × (x.kind ≡ kind) × (x.name ≡ name)
is_workload-eq x namespace kind name h =
    ground (arith, eq_iff x.namespace namespace, eq_iff x.kind kind, eq_iff x.name name)

same_run : (m n : ℕ) → (m == n) ≡ true → m ≡ n
same_run m n h = ground arith

same_key :
    (run run' : ℕ) (namespace kind name : String) (x : ScalableWorkload) (rows : Snapshots)
    → ((run' == run) && is_workload namespace kind name x) ≡ true
    → any (is_snapshot run' x.namespace x.kind x.name) rows
      ≡ any (is_snapshot run namespace kind name) rows
same_key run run' namespace kind name x rows h =
    let r : run' ≡ run = ground arith in
    let w : is_workload namespace kind name x ≡ true = ground arith in
    let (p, q, t) = is_workload-eq x namespace kind name w in cc

-- The row that the saving of a workload inserts.
abbrev new_row : (ℕ → ℕ) → ℕ → ℕ → ℕ → ScalableWorkload → WorkloadReplicaSnapshot
new_row fresh now run index x = record (snapshot_of run x) {
  id = fresh index;
  created_at = now;
  updated_at = now;
}

abbrev next_rows : Bool → Snapshots → WorkloadReplicaSnapshot → Snapshots
next_rows known rows row = if known then rows else rows ++ row ∷ []

module _ (run : ℕ) (namespace kind name : String) (n : ℕ) (run' : ℕ) where
  -- The workload has been saved, or is to be saved.
  abbrev pub Coming : Snapshots → List ScalableWorkload → Type 0
  Coming rows ws =
      (any (is_snapshot run namespace kind name) rows ≡ true)
      ⊎ ((run' ≡ run)
          × (any (is_workload namespace kind name) ws ≡ true)
          × All (Sized namespace kind name n) ws)

  module _ (fresh : ℕ → ℕ) (now index : ℕ) (rows : Snapshots) (x : ScalableWorkload)
      (ws : List ScalableWorkload) where
    abbrev row : WorkloadReplicaSnapshot
    row = new_row fresh now run' index x

    abbrev known : Bool
    known = any (is_snapshot run' x.namespace x.kind x.name) rows

    sized :
        is_snapshot run namespace kind name row ≡ true
        → any (is_snapshot run namespace kind name) rows ≡ false
        → Coming rows (x ∷ ws)
        → x.replicas ≡ n
    sized hit absent (inl there) = absurd (ground arith)
    sized hit absent (inr (r, a, sz)) = sz.0 (ground arith)

    missed : is_snapshot run namespace kind name row ≡ false → Coming rows (x ∷ ws) → Coming rows ws
    missed miss (inl there) = inl there
    missed miss (inr (r, a, sz)) = inr (r, ground arith, sz.1)

    appended : Coming rows ws → Coming (rows ++ row ∷ []) ws
    appended (inl there) =
        inl (rw (any-append (is_snapshot run namespace kind name) rows (row ∷ [])) (rw there refl))
    appended (inr later) = inr later

    hit_step :
        is_snapshot run namespace kind name row ≡ true
        → All (Agrees run namespace kind name n) rows
        → Coming rows (x ∷ ws)
        → All (Agrees run namespace kind name n) (next_rows known rows row)
          × Coming (next_rows known rows row) ws
    hit_step hit agree coming = elim (Bool-cases (any (is_snapshot run namespace kind name) rows)) [
      | inl there ↦
          rw (same_key run run' namespace kind name x rows hit) (rw there (agree, inl there))
      | inr absent ↦ rw (same_key run run' namespace kind name x rows hit) (
          rw absent (
            All-append (Agrees run namespace kind name n) rows (row ∷ []) agree
                ((λ _. sized hit absent coming), tt),
            inl (
                rw (any-append (is_snapshot run namespace kind name) rows (row ∷ []))
                  (rw hit (ground arith))),
          ))
    ]

    miss_step :
        is_snapshot run namespace kind name row ≡ false
        → All (Agrees run namespace kind name n) rows
        → Coming rows (x ∷ ws)
        → All (Agrees run namespace kind name n) (next_rows known rows row)
          × Coming (next_rows known rows row) ws
    miss_step miss agree coming = elim (Bool-cases known) [
      | inl e ↦ rw e (agree, missed miss coming)
      | inr e ↦ rw e (
        All-append (Agrees run namespace kind name n) rows (row ∷ []) agree
            ((λ h. absurd (ground arith)), tt),
        appended (missed miss coming),
      )
    ]

  saved :
      (fresh : ℕ → ℕ) (now index : ℕ) (rows : Snapshots) (ws : List ScalableWorkload)
      → All (Agrees run namespace kind name n) rows
      → Coming rows ws
      → Ensures
          (Recorded run namespace kind name n)
          (save_rows fresh now run' index rows (map (snapshot_of run') ws))
  unfolding save_rows
  saved fresh now index rows [] agree (inl there) = succeeds (there, agree)
  saved fresh now index rows [] agree (inr (r, a, sz)) = absurd (ground arith)
  saved fresh now index rows (x ∷ ws) agree coming =
      require-Ensures (run' == 0 || run' == run') _ (λ _.
        require-Ensures (is_scalable_kind x.kind) _ (λ _.
          require-Ensures
            (known fresh now index rows x ws || not (any (λ r. r.id == fresh index) rows)) _
            (λ _.
              elim (Bool-cases
                (is_snapshot run namespace kind name (new_row fresh now run' index x))) [
                  | inl hit ↦
                      let step = hit_step fresh now index rows x ws hit agree coming in
                      saved fresh now (index + 1)
                        (next_rows (known fresh now index rows x ws) rows
                          (new_row fresh now run' index x))
                        ws step.0 step.1
                  | inr miss ↦
                      let step = miss_step fresh now index rows x ws miss agree coming in
                      saved fresh now (index + 1)
                        (next_rows (known fresh now index rows x ws) rows
                          (new_row fresh now run' index x))
                        ws step.0 step.1
                ])))

  pub save-Recorded :
      (fresh : ℕ → ℕ) (now : ℕ) (rows : Snapshots) (ws : List ScalableWorkload)
      → All (Agrees run namespace kind name n) rows
      → Coming rows ws
      → Ensures
          (Recorded run namespace kind name n)
          (save_workload_replica_snapshots fresh now rows run' (map (snapshot_of run') ws))
  unfolding save_workload_replica_snapshots
  save-Recorded fresh now rows ws agree coming =
      require-Ensures (not (run' == 0)) _ (λ _. saved fresh now 0 rows ws agree coming)
