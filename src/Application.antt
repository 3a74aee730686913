-- ===== src/Application.antt =====
-- pkg/apiserver/domain/service/application.go: creating an application, its workflow and its
-- components.
pub mod References
pub mod Merged
pub mod Cleanup
pub mod Cleaned
pub mod WorkflowName
pub mod FreshName
pub mod DefaultWorkflow
pub mod Components
pub mod Version
pub mod Release
pub mod Updated
pub mod Synced
pub mod Rewrite
pub mod Renamed
pub mod Template
pub mod Overrides
pub mod Resolve
pub mod Upsert
pub mod Create
pub mod Upserted
pub mod EditWorkflow
pub mod Edited
pub mod Tests
pub mod Trials
use kube_min_cli.Base.{ℕ}
