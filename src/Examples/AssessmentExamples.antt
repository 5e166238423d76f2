-- ===== src/Examples/AssessmentExamples.antt =====
-- Runs of the theorems on assessments.
use k8s_migration.Base.{refl, ◌≡◌, any, ltb}
use k8s_migration.Assessment.Engine.{findings_of, assess}
use k8s_migration.Assessment.Service.{default_rules}
use k8s_migration.Assessment.Score.{is_blocker, IsTallied, assess-IsTallied}
use k8s_migration.Assessment.Blockers.{assess-blockers}
use k8s_migration.Examples.Sources.{sample_context}

assess-IsTallied_example :
    IsTallied (assess (λ fs. fs) (λ id key. id) default_rules 34 60 sample_context)
assess-IsTallied_example =
    assess-IsTallied (λ fs. fs) (λ id key. id) default_rules 34 60 sample_context

assess-blockers_example :
    ltb 0 (assess (λ fs. fs) (λ id key. id) default_rules 34 60 sample_context).blocker_count
    ≡ any (λ f. is_blocker f.severity) (findings_of default_rules sample_context)
assess-blockers_example =
    assess-blockers (λ fs. fs) (λ id key. id) default_rules 34 60 sample_context (λ p fs. refl)
