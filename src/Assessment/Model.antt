-- ===== src/Assessment/Model.antt =====
-- internal/domain/assessment/model.go: assessments and their issues. A status or a severity is one of
-- the listed values.
use k8s_migration.Base.{ℕ, String, Bool, Option, List}

pub data Severity : Type 0 where
  blocker warning info : Severity

pub data Category : Type 0 where
  compute storage network security image api dependency : Category

pub data Status : Type 0 where
  pending running completed failed : Status

pub record Issue : Type 0 where
  pub id : ℕ
  pub assessment_id : ℕ
  pub severity : Severity
  pub category : Category
  pub resource_kind : String
  pub resource_namespace : String
  pub resource_name : String
  pub rule_id : String
  pub title : String
  pub description : String
  pub remediation : String
  pub auto_fixable : Bool

pub record Assessment : Type 0 where
  pub id : ℕ
  pub application_id : ℕ
  pub score : ℕ
  pub blocker_count : ℕ
  pub warning_count : ℕ
  pub info_count : ℕ
  pub status : Status
  pub issues : List Issue
  pub created_at : ℕ
  pub completed_at : Option ℕ
