-- ===== src/Migration/Plan.antt =====
-- internal/domain/migration/model.go: `Plan.Validate`. `len` counts bytes.
use Prim.Native.String.{len}
use k8s_migration.Base.{
  ℕ, Bool, true, false, not, ◌||◌, Option, none, some, ◌==◌, ltb, str_eq, trim_space, Result,
  invalid_input, require, ◌>>◌,
}
use k8s_migration.Migration.Model.{Plan, VolumeMode}

abbrev pub is_nil : Option ℕ → Bool
is_nil none = false
is_nil (some id) = id == 0

abbrev pub is_supported : VolumeMode → Bool
is_supported (VolumeMode.other _) = false
is_supported _ = true

unfoldable pub validate : Plan → Result (Unit {0})
validate p = do
  require (not (str_eq (trim_space p.name) "" || ltb 128 (len (trim_space p.name))))
      (invalid_input "name is required and must not exceed 128 characters")
  require
      (not (
        p.source_environment_id == 0
        || (p.target_environment_id == 0
            || (p.source_application_id == 0 || p.assessment_id == 0))))
      (invalid_input "source, target, application and assessment IDs are required")
  require (not (is_nil p.mapping_profile_id))
      (invalid_input "mappingProfileId must be omitted or contain a valid ID")
  require (not (p.source_environment_id == p.target_environment_id))
      (invalid_input "source and target environments must differ")
  require (str_eq p.strategy.resource_mode "TRANSFORM")
      (invalid_input "resourceMode must be TRANSFORM")
  require (is_supported p.strategy.volume_mode) (invalid_input "unsupported volumeMode")
  require
      (not (
        ltb 4096 (len p.strategy.pre_quiesce_hook) || ltb 4096 (len p.strategy.post_rollback_hook)))
      (invalid_input "migration hooks must not exceed 4096 characters")
  require
      (not (
        ltb p.validation_policy.timeout_seconds 30 || ltb 3600 p.validation_policy.timeout_seconds))
      (invalid_input "validation timeout must be between 30 and 3600 seconds")
