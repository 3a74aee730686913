-- ===== src/TaskStatus.antt =====
-- The status of a task by component: GetTaskStatus, chooseAggStatus, defaultComponentStatus and
-- collectWorkflowComponentNames of pkg/apiserver/domain/service/workflow.go. The rows of the jobs come
-- from the store, oldest first. The answer is a dictionary under the names in lower case; the source
-- lists its values in any order. A status that is none of the constants counts as `unset`.
pub mod Aggregate
pub mod Tests
use kube_min_cli.Base.{
  ℕ, Bool, true, false, not, ◌&&◌, ◌||◌, Option, some, none, List, [], ◌∷◌, ◌++◌, Text, text_eq,
  Dict, lookup, insert, is_nil, ltb, ◌==◌, any, if◌then◌else◌,
}
use kube_min_cli.Config.{
  Status, unset, waiting, running, completed, passed, failed, timeout, reject, cancelled, prepare,
  distributed, debug_before, debug_after,
}
use kube_min_cli.Model.{WorkflowStep, WorkflowSubStep, component_names}
use kube_min_cli.Naming.{Unicode, to_lower}

-- The columns of a `JobInfo` row that are read.
pub record JobInfo : Type 0 where
  pub service_name : Text
  pub type : Text
  pub status : Status
  pub error : Text
  pub start_time : ℕ
  pub end_time : ℕ

pub record ComponentTaskStatus : Type 0 where
  pub name : Text
  pub type : Text
  pub status : Status
  pub error : Text
  pub start_time : ℕ
  pub end_time : ℕ

-- `priority` of `chooseAggStatus`
unfoldable pub severity : Status → ℕ
severity failed = 4
severity timeout = 4
severity reject = 4
severity cancelled = 3
severity running = 2
severity prepare = 2
severity distributed = 2
severity debug_before = 2
severity debug_after = 2
severity completed = 1
severity passed = 1
severity _ = 0

unfoldable pub choose_agg_status : Status → Status → Status
choose_agg_status current incoming =
    if ltb (severity current) (severity incoming) then incoming else current

unfoldable pub default_component_status : Status → Status
default_component_status cancelled = cancelled
default_component_status failed = failed
default_component_status timeout = timeout
default_component_status reject = reject
default_component_status completed = completed
default_component_status _ = waiting

abbrev pub first_status : JobInfo → ComponentTaskStatus
first_status j = record {
  name = j.service_name;
  type = j.type;
  status = j.status;
  error = j.error;
  start_time = j.start_time;
  end_time = j.end_time;
}

-- A row added to the status of its component, if that has one.
unfoldable pub add_job : Option ComponentTaskStatus → JobInfo → ComponentTaskStatus
unfolding choose_agg_status
add_job none j = first_status j
add_job (some a) j = record a {
  status = choose_agg_status a.status j.status;
  error = if is_nil a.error then j.error else a.error;
  start_time =
      if (a.start_time == 0) || (not (j.start_time == 0) && ltb j.start_time a.start_time)
      then j.start_time
      else a.start_time;
  end_time = if ltb a.end_time j.end_time then j.end_time else a.end_time;
}

module _ (u : Unicode) where
  unfoldable pub aggregate : List JobInfo → Dict ComponentTaskStatus → Dict ComponentTaskStatus
  unfolding add_job
  aggregate [] m = m
  aggregate (j ∷ js) m =
      let key = to_lower u j.service_name in aggregate js (insert key (add_job (lookup key m) j) m)

  -- The components that have no rows yet.
  unfoldable pub fill_missing :
      Status → List Text → Dict ComponentTaskStatus → Dict ComponentTaskStatus
  fill_missing status [] m = m
  fill_missing status (n ∷ names) m =
      let key = to_lower u n in
      let blank : ComponentTaskStatus = record {
        name = n;
        type = [];
        status = status;
        error = [];
        start_time = 0;
        end_time = 0;
      } in
      fill_missing status names (elim (lookup key m) [ none ↦ insert key blank m | some a ↦ m ])

  -- `add` of `collectWorkflowComponentNames` over a list of names.
  unfoldable pub collect : List Text → List Text → List Text → List Text
  collect [] seen names = names
  collect (n ∷ ns) seen names =
      let key = to_lower u n in
      if is_nil n || any (text_eq key) seen
      then collect ns seen names
      else collect ns (key ∷ seen) (names ++ (n ∷ []))

  abbrev sub_names : List WorkflowSubStep → List Text
  sub_names [] = []
  sub_names (s ∷ subs) = component_names s.name s.properties ++ sub_names subs

  abbrev step_names : List WorkflowStep → List Text
  step_names [] = []
  step_names (s ∷ steps) =
      component_names s.name s.properties ++ (sub_names s.sub_steps ++ step_names steps)

  unfoldable pub collect_workflow_component_names : List WorkflowStep → List Text
  unfolding collect
  collect_workflow_component_names steps = collect (step_names steps) [] []

  -- The components of the answer. The rows are none where listing them fails, and the steps `none`
  -- where the workflow does not load.
  unfoldable pub task_components :
      List JobInfo → Option (List WorkflowStep) → Status → Dict ComponentTaskStatus
  unfolding aggregate fill_missing collect_workflow_component_names default_component_status
  task_components jobs none status = aggregate jobs []
  task_components jobs (some steps) status =
      fill_missing (default_component_status status) (collect_workflow_component_names steps)
        (aggregate jobs [])
