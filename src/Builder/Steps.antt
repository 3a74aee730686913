-- ===== src/Builder/Steps.antt =====
-- GenerateJobTasks: the executions of a workflow, one after another.
use kube_min_cli.Base.{
  ℕ, not, ◌&&◌, Option, some, none, List, [], ◌∷◌, ◌++◌, Text, text, Dict, insert, is_nil, length,
  ltb, if◌then◌else◌,
}
use kube_min_cli.Config.{WorkflowMode, unset_mode, step_by_step, dag, is_parallel}
use kube_min_cli.Model.{WorkflowStep, WorkflowSubStep, WorkflowQueue, component_names}
use kube_min_cli.Buckets.{Buckets, new_job_buckets, buckets_empty}
use kube_min_cli.Builder.Share.{Component}
use kube_min_cli.Builder.Component.{Env, append_component_group}

pub record StepExecution : Type 0 where
  pub name : Text
  pub mode : WorkflowMode
  pub jobs : Buckets

unfoldable pub default_mode : WorkflowMode → WorkflowMode
default_mode unset_mode = step_by_step
default_mode step_by_step = step_by_step
default_mode dag = dag

-- `if bucketsEmpty(buckets) { continue }`, else the execution is appended.
unfoldable pub execution : Text → WorkflowMode → Buckets → List StepExecution
execution name mode b =
    if buckets_empty b then [] else record { name = name; mode = mode; jobs = b } ∷ []

abbrev or_name : Text → Text → Text
or_name name fallback = if is_nil name then fallback else name

-- `sub.Name`, or the component's name where the sub-step has no name and one component.
abbrev display_name : Text → List Text → Text
display_name [] (n ∷ []) = n
display_name name names = name

module _ (e : Env) where
  abbrev pub Components : Type 0
  Components = Dict (Component e.Properties)

  -- A list of components later in the list takes the name over.
  unfoldable pub component_map : List (Component e.Properties) → Components → Components
  component_map [] m = m
  component_map (c ∷ cs) m = component_map cs (insert c.name c m)

  abbrev group : List Text → Components → WorkflowQueue → ℕ → Buckets
  group names m task timeout = append_component_group e new_job_buckets names m task timeout

  -- All sub-steps of a parallel step, in one map of buckets.
  unfoldable pub parallel_sub_steps :
      Buckets → List WorkflowSubStep → Components → WorkflowQueue → ℕ → Buckets
  parallel_sub_steps b [] m task timeout = b
  parallel_sub_steps b (s ∷ subs) m task timeout =
      parallel_sub_steps
        (append_component_group e b (component_names s.name s.properties) m task timeout) subs m
        task timeout

  unfoldable pub sequential_sub_steps :
      List WorkflowSubStep → Components → WorkflowQueue → ℕ → List StepExecution
  unfolding execution
  sequential_sub_steps [] m task timeout = []
  sequential_sub_steps (s ∷ subs) m task timeout =
      let names = component_names s.name s.properties in
      execution (display_name s.name names) step_by_step (group names m task timeout)
      ++ sequential_sub_steps subs m task timeout

  -- The loop over the components of a step that is not parallel.
  unfoldable pub sequential_components :
      List Text → Components → WorkflowQueue → ℕ → List StepExecution
  unfolding execution
  sequential_components [] m task timeout = []
  sequential_components (n ∷ names) m task timeout =
      execution n step_by_step (group (n ∷ []) m task timeout)
      ++ sequential_components names m task timeout

  abbrev parallel_group : Text
  parallel_group = text "parallel-group"

  unfoldable pub step_executions :
      WorkflowStep → Components → WorkflowQueue → ℕ → List StepExecution
  unfolding execution parallel_sub_steps sequential_sub_steps sequential_components default_mode
  step_executions s m task timeout =
      let mode = default_mode s.mode in
      let names = component_names s.name s.properties in
      if not (is_nil s.sub_steps)
      then (if is_parallel mode
          then execution (or_name s.name parallel_group) mode
              (parallel_sub_steps new_job_buckets s.sub_steps m task timeout)
          else sequential_sub_steps s.sub_steps m task timeout)
      else if is_parallel mode && ltb 1 (length names)
      then execution (or_name s.name parallel_group) mode (group names m task timeout)
      else sequential_components names m task timeout

  unfoldable pub steps_executions :
      List WorkflowStep → Components → WorkflowQueue → ℕ → List StepExecution
  unfolding step_executions
  steps_executions [] m task timeout = []
  steps_executions (s ∷ steps) m task timeout =
      step_executions s m task timeout ++ steps_executions steps m task timeout

  -- The steps are `none` where the workflow is not found or its steps do not decode, the components
  -- where listing them fails: then no execution is generated.
  unfoldable pub generate_job_tasks :
      Option (List WorkflowStep)
      → Option (List (Component e.Properties))
      → WorkflowQueue
      → ℕ
      → List StepExecution
  unfolding steps_executions component_map
  generate_job_tasks none components task timeout = []
  generate_job_tasks (some steps) none task timeout = []
  generate_job_tasks (some steps) (some cs) task timeout =
      steps_executions steps (component_map cs []) task timeout
