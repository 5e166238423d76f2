-- ===== src/Execution/Keeps.antt =====
-- Invariants of the snapshots: one rule for each way to build a step.
use k8s_migration.Base.{◌≡◌, refl, Bool, true, false, List, Result, ok, err, if◌then◌else◌}
use k8s_migration.Base.Exec.{Exec, ◌>>=◌, ◌>>◌}
use k8s_migration.Store.Tables.Rows.{Db}
use k8s_migration.Execution.Progress.{WorkloadReplicaSnapshot, VolumeTransfer}
use k8s_migration.Execution.Quiesce.{with_snapshots}
use k8s_migration.Execution.Transfers.{with_transfers}
use k8s_migration.Execution.State.{State, act, change, ignore, sleep}

abbrev pub Snapshots : Type 0
Snapshots = List WorkloadReplicaSnapshot

-- `m` keeps `Q` of the snapshots, whether it returns or fails.
pub record Keeps {W A : Type 0} (Q : Snapshots → Type 0) (m : Exec (State W) A) : Type 0 where
  pub at : (s : State W) → Q s.snapshots → Q (m s).1.snapshots

module _ {W : Type 0} where
  changed :
      (Q : Snapshots → Type 0) (s : State W) (r : Result Db)
      → Q s.snapshots
      → Q (change (λ _. r) s).1.snapshots
  changed Q s (ok db) h = h
  changed Q s (err e) h = h

  stored :
      (Q : Snapshots → Type 0) (s : State W) (r : Result (List VolumeTransfer))
      → Q s.snapshots
      → Q (with_transfers s r).1.snapshots
  stored Q s (ok rows) h = h
  stored Q s (err e) h = h

module _ {W : Type 0} {Q : Snapshots → Type 0} where
  pub Keeps-still : {A : Type 0} (f : State W → Result A) → Keeps {W = W} Q (λ s. (f s, s))
  Keeps-still f = record { at = λ s h. h }

  pub Keeps-act : {A : Type 0} (f : W → Result A × W) → Keeps {W = W} Q (act f)
  Keeps-act f = record { at = λ s h. h }

  pub Keeps-sleep : (w : W → W) → Keeps {W = W} Q (sleep w)
  Keeps-sleep w = record { at = λ s h. h }

  pub Keeps-ignore : {A : Type 0} (m : Exec (State W) A) → Keeps Q m → Keeps Q (ignore m)
  Keeps-ignore m k = record { at = k.at }

  pub Keeps-change : (f : Db → Result Db) → Keeps {W = W} Q (change f)
  Keeps-change f = record { at = λ s h. changed Q s (f s.db) h }

  pub Keeps-if :
      {A : Type 0} (b : Bool) {m n : Exec (State W) A}
      → Keeps Q m
      → Keeps Q n
      → Keeps Q (if b then m else n)
  Keeps-if true km kn = km
  Keeps-if false km kn = kn

  continued :
      {A B : Type 0} {f : A → Exec (State W) B} (r : Result A) (s : State W)
      → ((a : A) → Keeps Q (f a))
      → Q s.snapshots
      → Q (((λ _. (r, s)) >>= f) s).1.snapshots
  continued (ok a) s kf h = (kf a).at s h
  continued (err e) s kf h = h

  pub Keeps-bind :
      {A B : Type 0} (m : Exec (State W) A) {f : A → Exec (State W) B}
      → Keeps Q m
      → ((a : A) → Keeps Q (f a))
      → Keeps Q (m >>= f)
  Keeps-bind m km kf = record { at = λ s h. continued (m s).0 (m s).1 kf (km.at s h) }

  pub Keeps-then :
      {A : Type 0} (m : Exec (State W) (Unit {0})) (k : Exec (State W) A)
      → Keeps Q m
      → Keeps Q k
      → Keeps Q (m >> k)
  Keeps-then m k km kk = Keeps-bind m km (λ _. kk)

  pub Keeps-transfers :
      (f : State W → Result (List VolumeTransfer)) → Keeps Q (λ s. with_transfers s (f s))
  Keeps-transfers f = record { at = λ s h. stored Q s (f s) h }

  saved :
      (s : State W) (r : Result Snapshots)
      → ((rows : Snapshots) → r ≡ ok rows → Q rows)
      → Q s.snapshots
      → Q (with_snapshots s r).1.snapshots
  saved s (ok rows) k h = k rows refl
  saved s (err e) k h = h

  -- What is saved must keep the predicate itself.
  pub Keeps-snapshots :
      (f : Snapshots → Result Snapshots)
      → ((rows rows' : Snapshots) → f rows ≡ ok rows' → Q rows → Q rows')
      → Keeps {W = W} Q (λ s. with_snapshots s (f s.snapshots))
  Keeps-snapshots f keep = record {
    at = λ s h. saved s (f s.snapshots) (λ rows e. keep s.snapshots rows e h) h;
  }

pub ruleset keeps_rules = (
  Keeps-still, Keeps-act, Keeps-sleep, Keeps-ignore, Keeps-change, Keeps-if, Keeps-then, Keeps-bind,
  Keeps-transfers,
)
