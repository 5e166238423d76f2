-- ===== src/Execution/Restored.antt =====
-- internal/migration/velero_executor.go: a rollback gives the source its replicas back.
use mathlib.Core.Path.{subst}
use k8s_migration.Base.{
  ℕ, ◌≡◌, sym, ◌∙◌, ap, String, true, false, some, List, ◌==◌, any, All, inl, ok, Ensures-ok,
  length, arith,
}
use k8s_migration.Base.Tables.{All-mono}
use k8s_migration.Store.Tables.Rows.{Db, Claimed}
use k8s_migration.Execution.Clients.{KubernetesClient, ScalableWorkload}
use k8s_migration.Execution.Progress.{VolumeTransfer}
use k8s_migration.Execution.State.{VeleroExecutor, State}
use k8s_migration.Execution.Context.{ExecutionContext, resolve}
use k8s_migration.Execution.Quiesce.{selected_workloads, quiesce, rollback}
use k8s_migration.Execution.Handle.{Waits, handle}
use k8s_migration.Execution.Kept.{handle-Keeps}
use k8s_migration.Execution.Recorded.{is_workload, Agrees, Sized, Recorded, save-Recorded}
use k8s_migration.Execution.Scaling.{ScalingLaws, listed-Sized, selected-All}
use k8s_migration.Execution.Stopped.{
  quiesce-opened, rollback-opened, quiesce_workloads-Recorded, restore_workloads-replicas,
  some_listed,
}

-- What may happen between a quiesce and a rollback: steps of any run by any executor, and whatever
-- changes the other tables and the clusters.
pub data Later {W : Type 0} (s : State W) : State W → Type 0 where
  here : Later s s
  handled :
      {t : State W}
      → Later s t
      → (e : VeleroExecutor W) (waits : Waits W) (lease : Claimed)
      → Later s (handle e waits lease t).1
  elsewhere :
      {t : State W}
      → Later s t
      → (db : Db) (transfers : List VolumeTransfer) (clusters : W)
      → Later s (record t { db = db; transfers = transfers; clusters = clusters })

module _ {W : Type 0} (run : ℕ) (namespace kind name : String) (n : ℕ) where
  Later-Recorded :
      {s t : State W}
      → Recorded run namespace kind name n s.snapshots
      → Later s t
      → Recorded run namespace kind name n t.snapshots
  Later-Recorded h here = h
  Later-Recorded h (elsewhere l db transfers clusters) = Later-Recorded h l
  Later-Recorded {s} h (handled {t} l e waits lease) =
      (handle-Keeps {Q = Recorded run namespace kind name n} e
          (λ run' ws rows rows' p r.
            Ensures-ok
              (save-Recorded run namespace kind name n run' e.fresh e.now rows ws r.1 (inl r.0)) p)
          waits lease).at
        t (Later-Recorded h l)

-- After a quiesce that succeeds, with no snapshot of the run from before, whatever steps, of whatever runs, follow and whatever else happens to the clusters and the other tables, a rollback of the run that succeeds gives each workload that the quiesce has stopped the replicas that it had before, where both use the same client and the same kubeconfig of the source, the application has a volume, and the client scales workloads as Kubernetes does.
pub quiesce-rollback :
    {W : Type 0} (client : KubernetesClient W) (laws : ScalingLaws client) (e e' : VeleroExecutor W)
    (run : ℕ) (s t : State W) (c c' : ExecutionContext) (ws : List ScalableWorkload)
    (namespace kind name : String) (n : ℕ)
    → e.kubernetes ≡ some client
    → e'.kubernetes ≡ some client
    → resolve e s.db run ≡ ok c
    → resolve e' t.db run ≡ ok c'
    → c'.source_kube ≡ c.source_kube
    → (length c.application.inventory.pvcs == 0) ≡ false
    → All (λ row. (row.run_id == run) ≡ false) s.snapshots
    → client.list_scalable_workloads c.source_kube c.application.namespace s.clusters ≡ ok ws
    → any (is_workload namespace kind name) (selected_workloads c.application.inventory ws) ≡ true
    → laws.replicas c.source_kube namespace kind name s.clusters ≡ some n
    → (quiesce e run s).0 ≡ ok tt
    → Later (quiesce e run s).1 t
    → (rollback e' run t).0 ≡ ok tt
    → laws.replicas c.source_kube namespace kind name (rollback e' run t).1.clusters ≡ some n
quiesce-rollback client laws e e' run s t c c' ws namespace kind name n k k' r r' same volumes fresh
      listing there had done later back =
    let sized = selected-All (Sized namespace kind name n) c.application.inventory ws (
      listed-Sized laws c.source_kube s.clusters namespace kind name n ws
        (laws.listed c.source_kube c.application.namespace s.clusters ws listing) had) in
    let agree =
      All-mono (λ row. (row.run_id == run) ≡ false) (Agrees run namespace kind name n)
        (λ row other hit. absurd (ground arith)) s.snapshots fresh in
    let opened = quiesce-opened client e run s c k r volumes in
    let kept : Recorded run namespace kind name n t.snapshots =
      Later-Recorded run namespace kind name n
        (subst (λ x. Recorded run namespace kind name n x.1.snapshots) (sym opened)
          (quiesce_workloads-Recorded client run namespace kind name n e c s ws listing there sized
            agree (sym (ap (λ x. x.0) opened) ∙ done)))
        later in
    let closed =
      rollback-opened client e' run t c' k' r'
        (some_listed client run namespace kind name n t.snapshots kept) in
    subst (λ kube. laws.replicas kube namespace kind name (rollback e' run t).1.clusters ≡ some n)
      same
      (ap (λ x. laws.replicas c'.source_kube namespace kind name x.1.clusters) closed
        ∙ restore_workloads-replicas client run namespace kind name n laws e' c' t kept
            (sym (ap (λ x. x.0) closed) ∙ back))
