-- ===== src/Plans/BlockVolumes.antt =====
-- internal/assessment and internal/migration/service.go: what an assessment without blockers says of
-- the preflight checks of an application with a block volume.
use k8s_migration.Base.{
  ℕ, ◌≡◌, refl, sym, ap, ◌∙◌, String, Bool, true, false, ◌&&◌, List, [], ◌∷◌, arith, ltb, any,
  order_by, equal_fold, if◌then◌else◌, Bool-cases, inl, inr, str_ltb,
}
use k8s_migration.Base.Orders.{any-append, any-order_by}
use k8s_migration.Environment.{
  Capabilities, snapshot_driver_for_storage_class, supports_raw_block_data_mover,
}
use k8s_migration.Application.{VolumeSummary}
use k8s_migration.Assessment.Engine.{Context, Finding, Rule, evaluate_all, findings_of, assess}
use k8s_migration.Assessment.Rules.{gather}
use k8s_migration.Assessment.Extended.{block_path, block_finding, raw_block_volume}
use k8s_migration.Assessment.Score.{is_blocker}
use k8s_migration.Assessment.Blockers.{assess-blockers}
use k8s_migration.Assessment.Service.{default_rules}
use k8s_migration.Migration.Model.{Plan}
use k8s_migration.Plans.Strategy.{
  is_csi_data_mover, has_snapshot_driver, is_valid_mode, has_raw_block,
}
use k8s_migration.Plans.Service.{References}
use k8s_migration.Plans.Gate.{all_volumes, strategy_ready}

-- What is assessed for a plan.
abbrev pub context_of : References → Context
context_of r = record {
  application = r.application;
  source = r.source.capabilities;
  target = r.target.capabilities;
}

abbrev blocks : Finding → Bool
blocks f = is_blocker f.severity

evaluate_all-blocks :
    (rules : List Rule) (context : Context)
    → any blocks (evaluate_all rules context) ≡ any (λ r. any blocks (r.evaluate context)) rules
evaluate_all-blocks [] context = refl
evaluate_all-blocks (r ∷ rules) context =
    any-append blocks (r.evaluate context) (evaluate_all rules context)
    ∙ ground (arith, evaluate_all-blocks rules context)

findings_of-blocks :
    (rules : List Rule) (context : Context)
    → any blocks (findings_of rules context) ≡ any (λ r. any blocks (r.evaluate context)) rules
findings_of-blocks rules context =
    evaluate_all-blocks (order_by (λ a b. str_ltb a.id b.id) rules) context
    ∙ any-order_by (λ r. any blocks (r.evaluate context)) (λ a b. str_ltb a.id b.id) rules

-- Each block volume of a list can be moved where the rule finds no blocker in it.
block_path-any :
    (context : Context) (vs : List VolumeSummary)
    → any blocks (
        gather
          (λ v. if equal_fold v.volume_mode "Block" then block_finding context v ∷ [] else [])
          vs)
      ≡ false
    → any (λ v. equal_fold v.volume_mode "Block") vs ≡ true
    → any (block_path context) vs ≡ true
unfolding block_finding
block_path-any context [] h k = absurd (ground arith)
block_path-any context (v ∷ vs) h k = elim (Bool-cases (block_path context v)) [
  | inl p ↦ rw p refl
  | inr p ↦ elim (Bool-cases (equal_fold v.volume_mode "Block")) [
    | inl e ↦ absurd (ground (arith, rw (e, p, block_finding) at h))
    | inr e ↦ rw p (block_path-any context vs (rw e at h) (rw e at k))
  ]
]

record BlockReady (source target : Capabilities) : Type 0 where
  pub linux : supports_raw_block_data_mover source ≡ true
  pub backup : source.csi_data_mover.backup_ready ≡ true
  pub restore : target.csi_data_mover.restore_ready ≡ true

last_three : (a b c d : Bool) → (a && (b && (c && d))) ≡ true → (b ≡ true) × (c ≡ true) × (d ≡ true)
last_three a b c d h = ground arith

block_path-BlockReady :
    (context : Context) (vs : List VolumeSummary)
    → any (block_path context) vs ≡ true
    → BlockReady context.source context.target
unfolding block_path
block_path-BlockReady context [] h = absurd (ground arith)
block_path-BlockReady context (v ∷ vs) h = elim (Bool-cases (block_path context v)) [
  | inl p ↦
      let parts =
        last_three (snapshot_driver_for_storage_class context.source v.storage_class_name).1
          (supports_raw_block_data_mover context.source) context.source.csi_data_mover.backup_ready
          context.target.csi_data_mover.restore_ready p in
      record { linux = parts.0; backup = parts.1; restore = parts.2 }
  | inr p ↦ block_path-BlockReady context vs (rw p at h)
]

-- The rule on block volumes is one of the engine's, so that it finds no blocker where none is counted.
raw_block_volume-quiet :
    (context : Context)
    → any blocks (findings_of default_rules context) ≡ false
    → any blocks (raw_block_volume context) ≡ false
raw_block_volume-quiet context h =
    let each = sym (findings_of-blocks default_rules context) ∙ h in ground (arith, each)

-- Where the assessment of an application with a block volume counts no blocker, a plan that uses the CSI
-- data mover between the assessed environments meets the demands on its strategy exactly where its
-- mode fits the application and each volume has a snapshot driver, where the sort keeps what there
-- is of findings.
pub assess-strategy_ready :
    (sort : List Finding → List Finding) (uuid_sha1 : ℕ → String → ℕ) (id now : ℕ) (plan : Plan)
    (r : References)
    → ((p : Finding → Bool) (fs : List Finding) → any p (sort fs) ≡ any p fs)
    → is_csi_data_mover plan.strategy.volume_mode ≡ true
    → has_raw_block r.application ≡ true
    → (assess sort uuid_sha1 default_rules id now (context_of r)).blocker_count ≡ 0
    → strategy_ready plan r ≡ (
        is_valid_mode r.application plan.strategy.volume_mode
        && all_volumes (has_snapshot_driver r.source) r.application.inventory.pvcs)
unfolding has_raw_block raw_block_volume
assess-strategy_ready sort uuid_sha1 id now plan r keep csi raw none_counted =
    let counted = assess-blockers sort uuid_sha1 default_rules id now (context_of r) keep in
    let quiet : any blocks (findings_of default_rules (context_of r)) ≡ false =
      sym counted ∙ ap (λ n. ltb 0 n) none_counted in
    let ready = block_path-BlockReady (context_of r) r.application.inventory.pvcs (
      block_path-any (context_of r) r.application.inventory.pvcs
        (raw_block_volume-quiet (context_of r) quiet) raw) in
    rw (csi, raw, ready.linux, ready.backup, ready.restore) refl
