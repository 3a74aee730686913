-- ===== src/Model.antt =====
-- pkg/apiserver/domain/model: workflow.go (steps), workflow_queue.go, job.go and the component of
-- applications.go. Columns that no modelled code reads are left out.
use kube_min_cli.Base.{ℕ, List, [], ◌∷◌, ◌++◌, Text, Dict, is_nil, if◌then◌else◌, not, ◌&&◌}
use kube_min_cli.Config.{Status, WorkflowMode, JobType}

-- A sub-step; `properties` holds the `Policies` of each entry.
pub record WorkflowSubStep : Type 0 where
  pub name : Text
  pub properties : List (List Text)

pub record WorkflowStep : Type 0 where
  pub name : Text
  pub mode : WorkflowMode
  pub properties : List (List Text)
  pub sub_steps : List WorkflowSubStep

unfoldable pub extract_policy_names : List (List Text) → List Text
extract_policy_names [] = []
extract_policy_names (p ∷ ps) = p ++ extract_policy_names ps

-- The names a step refers to: those of its policies, or else its own.
unfoldable pub component_names : Text → List (List Text) → List Text
component_names name properties =
    let names = extract_policy_names properties in
    if is_nil names && not (is_nil name) then name ∷ [] else names

-- A task of the workflow queue, one row of the table.
pub record WorkflowQueue : Type 0 where
  pub task_id : Text
  pub project_id : Text
  pub workflow_name : Text
  pub app_id : Text
  pub workflow_id : Text
  pub status : Status
  pub task_revoker : Text
  pub create_time : ℕ
  pub update_time : ℕ

-- What a job applies: of the payload, the labels of the types that carry some.
pub data JobPayload : Type 0 where
  no_payload : JobPayload
  labelled : Dict Text → JobPayload
  unlabelled : JobPayload

-- The unit of execution. Times and the timeout are int64 numbers of seconds that are never negative.
pub record JobTask : Type 0 where
  pub name : Text
  pub namespace : Text
  pub workflow_id : Text
  pub project_id : Text
  pub app_id : Text
  pub task_id : Text
  pub job_info : JobPayload
  pub job_type : JobType
  pub status : Status
  pub start_time : ℕ
  pub end_time : ℕ
  pub error : Text
  pub timeout : ℕ
