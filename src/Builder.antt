-- ===== src/Builder.antt =====
-- pkg/apiserver/event/workflow/job_builder.go: from a workflow and its components to the jobs that
-- the controller runs, and pkg/apiserver/config/share.go.
-- A parameter `Env` gives what lies outside: the decoding of JSON columns, unicode, and the
-- generators of Kubernetes objects of the job package.
pub mod Share
pub mod Objects
pub mod Component
pub mod Steps
pub mod Placed
pub mod Placement
pub mod Executions
pub mod Tests
