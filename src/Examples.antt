-- ===== src/Examples.antt =====
-- The theorems on concrete rows: the data, and a module of runs for each part.
pub mod Rows
pub mod StatusExamples
pub mod StoreExamples
pub mod LifecycleExamples
pub mod WorkerExamples
pub mod ReportExamples
pub mod SecurityExamples
pub mod Sources
pub mod AssessmentExamples
pub mod PlanExamples
pub mod AuthExamples
pub mod ConfigExamples
pub mod OfflineExamples
pub mod Clients
pub mod ExecutionExamples
