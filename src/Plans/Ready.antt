-- ===== src/Plans/Ready.antt =====
-- internal/migration/service.go: a plan passes its preflight checks exactly where they demand nothing
-- that is missing.
use k8s_migration.Base.{
  ℕ, String, Bool, true, false, not, ◌&&◌, ◌||◌, ◌==◌, List, [], ◌∷◌, ◌++◌, ◌≡◌, refl, sym, ap, ◌∙◌,
  arith, insert_by, order_by, if◌then◌else◌, str_ltb, Bool-cases, inl, inr,
}
use k8s_migration.Environment.{
  Environment, is_kubernetes, is_connected, supports_raw_block_data_mover,
}
use k8s_migration.Application as App
use k8s_migration.Application.{SourceApplication, Inventory, VolumeSummary}
use k8s_migration.Migration.Model.{Plan}
use k8s_migration.Plans.Checks.{
  CheckStatus, PreflightCheck, connection_check, is_discovered, has_compose_runtime,
  source_capability_checks, has_smartx_csi, target_capability_checks, assessment_checks,
  has_target_class, names_without, is_empty, storage_mapping_checks, registry_check,
}
use k8s_migration.Plans.Strategy.{
  is_csi_data_mover, is_fs_backup, has_snapshot_driver, data_mover_strategy_checks, is_valid_mode,
  has_raw_block, strategy_checks, fsb_check, mode_check, raw_block_checks,
}
use k8s_migration.Plans.Service.{
  References, PreflightResult, checks_of, sort_checks, count_check, count_checks, result_of,
}
use k8s_migration.Plans.Gate.{all_volumes, assessment_ready, strategy_ready, storage_ready, gate}

abbrev passes : PreflightCheck → Bool
passes c = elim c.status [
  | CheckStatus.blocker ↦ false
  | CheckStatus.warning ↦ true
  | CheckStatus.passed ↦ true
]

abbrev clear : List PreflightCheck → Bool
clear [] = true
clear (c ∷ cs) = passes c && clear cs

clear-append : (cs ds : List PreflightCheck) → clear (cs ++ ds) ≡ (clear cs && clear ds)
clear-append [] ds = refl
clear-append (c ∷ cs) ds = ground (arith, clear-append cs ds)

clear-insert_by :
    (before : PreflightCheck → PreflightCheck → Bool) (c : PreflightCheck)
    (cs : List PreflightCheck)
    → clear (insert_by before c cs) ≡ (passes c && clear cs)
clear-insert_by before c [] = refl
clear-insert_by before c (d ∷ ds) = elim (Bool-cases (before c d)) [
  | inl e ↦ rw e refl
  | inr e ↦ rw (e, clear-insert_by before c ds) (ground arith)
]

-- The order of the checks does not matter.
clear-order_by :
    (before : PreflightCheck → PreflightCheck → Bool) (cs : List PreflightCheck)
    → clear (order_by before cs) ≡ clear cs
clear-order_by before [] = refl
clear-order_by before (c ∷ cs) =
    clear-insert_by before c (order_by before cs)
    ∙ ap (λ b. passes c && b) (clear-order_by before cs)

-- No blocker is counted exactly where no check is one.
count_check-passes :
    (c : PreflightCheck) (r : PreflightResult)
    → ((count_check c.status r).blocker_count == 0) ≡ ((r.blocker_count == 0) && passes c)
count_check-passes c r = ground arith

count_checks-clear :
    (cs : List PreflightCheck) (r : PreflightResult)
    → ((count_checks cs r).blocker_count == 0) ≡ ((r.blocker_count == 0) && clear cs)
count_checks-clear [] r = ground arith
count_checks-clear (c ∷ cs) r =
    count_checks-clear cs (count_check c.status r)
    ∙ (ap (λ b. b && clear cs) (count_check-passes c r) ∙ ground arith)

names_without-all :
    (holds : VolumeSummary → Bool) (vs : List VolumeSummary)
    → is_empty (names_without holds vs) ≡ all_volumes holds vs
names_without-all holds [] = refl
names_without-all holds (v ∷ vs) = elim (Bool-cases (holds v)) [
  | inl e ↦ rw e (names_without-all holds vs)
  | inr e ↦ rw e refl
]

all_volumes-empty :
    (holds : VolumeSummary → Bool) (vs : List VolumeSummary)
    → is_empty vs ≡ true
    → all_volumes holds vs ≡ true
all_volumes-empty holds [] e = refl
all_volumes-empty holds (v ∷ vs) e = absurd (ground arith)

-- A test that chooses between a check that passes and one that does not.
clear-either :
    (holds : Bool) (c d : PreflightCheck)
    → passes c ≡ true
    → passes d ≡ false
    → clear (if holds then c ∷ [] else d ∷ []) ≡ holds
clear-either true c d h k = rw h refl
clear-either false c d h k = rw k refl

connection_check-passes :
    (id category title : String) (e : Environment)
    → passes (connection_check id category title e) ≡ is_connected e.status
unfolding connection_check
connection_check-passes id category title e = elim (Bool-cases (is_connected e.status)) [
  | inl h ↦ rw h refl
  | inr h ↦ rw h refl
]

source_capability_checks-clear :
    (e : Environment)
    → clear (source_capability_checks e)
      ≡ (if is_kubernetes e.kind then is_discovered e else has_compose_runtime e)
unfolding source_capability_checks
source_capability_checks-clear e = ground arith

target_capability_checks-clear :
    (e : Environment)
    → clear (target_capability_checks e) ≡ (is_discovered e && has_smartx_csi e.capabilities)
unfolding target_capability_checks
target_capability_checks-clear e = ground arith

assessment_checks-clear :
    (r : References) → clear (assessment_checks r.assessment) ≡ assessment_ready r
unfolding assessment_checks
assessment_checks-clear r = ground arith

storage_mapping_checks-clear :
    (r : References)
    → clear (storage_mapping_checks r.application r.target r.profile) ≡ storage_ready r
unfolding storage_mapping_checks
storage_mapping_checks-clear r =
    let holds = has_target_class r.target.capabilities r.profile in
    let named = names_without-all holds r.application.inventory.pvcs in
    elim (Bool-cases (App.is_compose r.application.source_type)) [
      | inl c ↦ rw c refl
      | inr c ↦ elim (Bool-cases (is_empty r.application.inventory.pvcs)) [
        | inl e ↦ rw (c, e) (sym (all_volumes-empty holds r.application.inventory.pvcs e))
        | inr e ↦
            rw (c, e, named)
              (clear-either (all_volumes holds r.application.inventory.pvcs) _ _ refl refl)
      ]
    ]

registry_check-passes : (r : References) → passes (registry_check r.application r.profile) ≡ true
unfolding registry_check
registry_check-passes r = ground arith

data_mover_strategy_checks-clear :
    (r : References)
    → clear (data_mover_strategy_checks r.source r.target r.application) ≡ (
        r.source.capabilities.csi_data_mover.backup_ready
        && (r.target.capabilities.csi_data_mover.restore_ready
            && all_volumes (has_snapshot_driver r.source) r.application.inventory.pvcs))
unfolding data_mover_strategy_checks
data_mover_strategy_checks-clear r =
    rw (names_without-all (has_snapshot_driver r.source) r.application.inventory.pvcs)
      (ground arith)

mode_check-passes : (valid : Bool) → passes (mode_check valid) ≡ valid
mode_check-passes true = refl
mode_check-passes false = refl

raw_block_checks-clear :
    (raw_block csi linux : Bool)
    → clear (raw_block_checks raw_block csi linux) ≡ (not raw_block || (csi && linux))
raw_block_checks-clear true true true = refl
raw_block_checks-clear true true false = refl
raw_block_checks-clear true false linux = refl
raw_block_checks-clear false csi linux = refl

runtime-clear :
    (csi fs : Bool) (cs : List PreflightCheck) (c : PreflightCheck)
    → passes c ≡ true
    → clear (if csi then cs else if fs then c ∷ [] else []) ≡ (not csi || clear cs)
runtime-clear true fs cs c h = refl
runtime-clear false true cs c h = rw h refl
runtime-clear false false cs c h = refl

strategy_checks-clear :
    (plan : Plan) (r : References)
    → clear (strategy_checks plan r.source r.target r.application) ≡ strategy_ready plan r
unfolding strategy_checks
strategy_checks-clear plan r =
    let mode = plan.strategy.volume_mode in
    let movers = data_mover_strategy_checks r.source r.target r.application in
    rw
      (
        mode_check-passes (is_valid_mode r.application mode),
        clear-append
            (raw_block_checks (has_raw_block r.application) (is_csi_data_mover mode)
              (supports_raw_block_data_mover r.source.capabilities))
            _,
        raw_block_checks-clear (has_raw_block r.application) (is_csi_data_mover mode)
            (supports_raw_block_data_mover r.source.capabilities),
        runtime-clear (is_csi_data_mover mode) (is_fs_backup mode) movers fsb_check refl,
        data_mover_strategy_checks-clear r,
      )
      refl

regroup :
    (a b c d e f g : Bool)
    → (a && (b && (c && (d && (e && (f && (g && true)))))))
      ≡ ((a && (b && (c && d))) && (e && (f && g)))
regroup a b c d e f g = ground arith

checks_of-clear : (plan : Plan) (r : References) → clear (checks_of plan r) ≡ gate plan r
unfolding checks_of
checks_of-clear plan r =
    rw
      (
        connection_check-passes "source.connection" "SOURCE" "源环境连接" r.source,
        connection_check-passes "target.connection" "TARGET" "目标 SKS 连接" r.target,
        clear-append (source_capability_checks r.source) _,
        source_capability_checks-clear r.source,
        clear-append (target_capability_checks r.target) _,
        target_capability_checks-clear r.target,
        clear-append (assessment_checks r.assessment) _,
        assessment_checks-clear r,
        clear-append (strategy_checks plan r.source r.target r.application) _,
        strategy_checks-clear plan r,
        clear-append (storage_mapping_checks r.application r.target r.profile) _,
        storage_mapping_checks-clear r,
        registry_check-passes r,
      )
      (regroup (is_connected r.source.status) (is_connected r.target.status)
        (if is_kubernetes r.source.kind
          then is_discovered r.source
          else has_compose_runtime r.source)
        (is_discovered r.target && has_smartx_csi r.target.capabilities) (assessment_ready r)
        (strategy_ready plan r) (storage_ready r))

-- A plan is ready exactly where its references pass the gate.
pub result_of-ready :
    (plan : Plan) (r : References) (id : ℕ) → (result_of id (checks_of plan r)).ready ≡ gate plan r
unfolding result_of
result_of-ready plan r id =
    count_checks-clear (sort_checks (checks_of plan r)) _
    ∙ (clear-order_by (λ a b. not (str_ltb b.id a.id)) (checks_of plan r) ∙ checks_of-clear plan r)
