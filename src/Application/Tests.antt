-- ===== src/Application/Tests.antt =====
-- The application service at concrete inputs.
use kube_min_cli.Base.{
  ℕ, ◌+◌, ◌<◌, ◌==◌, leb, arith, ◌≡◌, ◌⊎◌, refl, true, false, not, ◌&&◌, ◌||◌, List, [], ◌∷◌, map,
  Option, none, some, Text, text, text_eq, all, member, lookup, insert, is_decimal, if◌then◌else◌,
  decimal, delete,
}
use kube_min_cli.Config.{created, step_by_step, parse_component_action}
use kube_min_cli.Model.{WorkflowStep}
use kube_min_cli.Naming.{Unicode, to_lower, trim_space}
use kube_min_cli.Application.Cleaned.{
  application_resources, named, attempts, deleted, failed, error_for, cleanup-partitions,
}
use kube_min_cli.Application.Cleanup.{
  ClientError, not_found, other_error, Generated, Resource, deployment, service, object, config_map,
  cleanup_application_resources,
}
use kube_min_cli.Application.Components.{Applications, ApplicationComponent}
use kube_min_cli.Application.DefaultWorkflow.{
  is_candidate, In, unbeaten, pick_default_workflow-best,
}
use kube_min_cli.Application.FreshName.{candidate, ensure_unique_workflow_name-fresh}
use kube_min_cli.Application.Release.{Failures}
use kube_min_cli.Application.Synced.{names_step, names_step-sync_workflow_steps}
use kube_min_cli.Application.Updated.{IsAccounted, update_version-IsAccounted}
use kube_min_cli.Application.Version.{
  ComponentUpdateSpec, Progress, updated_row, created_row, deleted_row, added_component, start,
  apply_specs, sync_workflow_steps, apply_action, apply_spec, changed_component,
}
use kube_min_cli.Application.WorkflowName.{
  Workflow, equal_fold, in_use, ensure_unique_workflow_name, pick_default_workflow,
}

abbrev pub plain : Unicode
plain = record { lower = λ c. c; is_space = λ c. c == 32 }

abbrev pub fold_case : ℕ → ℕ
fold_case c = if leb 65 c && leb c 90 then c + 32 else c

fold_case_digit : (c : ℕ) → is_decimal c ≡ true → fold_case c ≡ c
fold_case_digit c h = ground arith

abbrev pub app : Applications
app = record {
  id = text "a1";
  name = text "Shop";
  namespace = text "prod";
  version = text "1.0.0";
  alias = [];
  project = [];
  description = [];
  icon = [];
  tmp_enable = true;
}

abbrev pub component : Text → ApplicationComponent
component name = record {
  name = name;
  app_id = text "a1";
  namespace = text "prod";
  image = text "nginx";
  replicas = 1;
  component_type = text "webservice";
  properties = none;
  component_traits = none;
}

abbrev pub workflow : Text → Workflow
workflow name = record {
  id = text "w1";
  name = name;
  namespace = text "prod";
  alias = [];
  disabled = false;
  project_id = [];
  app_id = text "a1";
  description = [];
  workflow_type = text "workflow";
  status = created;
  steps = none;
  create_time = 1;
  update_time = 2;
}

-- The base and its first number are in use.
abbrev pub two_workflows : List Workflow
two_workflows = workflow (text "Flow") ∷ workflow (text "flow-1") ∷ []

ensure_unique_workflow_name-fresh_example :
    (n : ℕ) × (ensure_unique_workflow_name fold_case (text "flow") two_workflows
      ≡ some (candidate (text "flow") n))
    × (in_use fold_case (candidate (text "flow") n) two_workflows ≡ false)
    × ((m : ℕ) → m < n → in_use fold_case (candidate (text "flow") m) two_workflows ≡ true)
ensure_unique_workflow_name-fresh_example =
    ensure_unique_workflow_name-fresh fold_case fold_case_digit (text "flow") two_workflows refl

third_name :
    ensure_unique_workflow_name fold_case (text "flow") two_workflows ≡ some (text "flow-2")
unfolding ensure_unique_workflow_name equal_fold text_eq decimal
third_name = refl

pick_default_workflow-best_example :
    ((pick_default_workflow fold_case two_workflows (text "flow-1") [] ≡ none)
      × (all (λ (w : Workflow). not (is_candidate w)) two_workflows ≡ true))
    ⊎ ((v : Workflow) × (pick_default_workflow fold_case two_workflows (text "flow-1") [] ≡ some v)
        × In v two_workflows
        × (is_candidate v ≡ true)
        × (unbeaten fold_case (text "flow-1") [] v two_workflows ≡ true))
pick_default_workflow-best_example =
    pick_default_workflow-best fold_case (text "flow-1") [] two_workflows

-- Deleting a deployment fails, there is no second object, deleting anything else succeeds.
abbrev no_deployments : ℕ → Resource → Option ClientError
no_deployments n r = elim r.kind [
  | deployment ↦ some (other_error (text "forbidden"))
  | _ ↦ if n == 2 then some not_found else none
]

abbrev generated : Generated
generated = record {
  component_namespace = [];
  additional_objects = object config_map [] (text "conf") ∷ [];
  workload = some (record { kind = deployment; namespace = text "prod"; name = text "web" });
  component_service = some (record { kind = service; namespace = text "prod"; name = text "svc" });
}

abbrev tried : List (Resource × Option ClientError)
tried = attempts no_deployments 0 (named (application_resources (generated ∷ [])))

cleanup-partitions_example :
    (((cleanup_application_resources no_deployments (generated ∷ [])).0).0 ≡ deleted tried)
    × (((cleanup_application_resources no_deployments (generated ∷ [])).0).1 ≡ failed tried)
    × ((cleanup_application_resources no_deployments (generated ∷ [])).1 ≡ error_for (failed tried))
cleanup-partitions_example = cleanup-partitions no_deployments (generated ∷ [])

abbrev spec : Text → Text → ComponentUpdateSpec
spec action name = record {
  action = action;
  name = name;
  image = text "nginx:2";
  replicas = none;
  env = [];
  component_type = text "webservice";
  properties = none;
  component_traits = none;
}

abbrev none_fails : Failures
none_fails = record {
  update_fails = λ n. false;
  create_fails = λ n. false;
  delete_fails = λ n. false;
  app_fails = false;
  workflow_fails = false;
  queue_fails = false;
}

abbrev specs : List ComponentUpdateSpec
specs =
    spec (text "remove") (text " Web")
    ∷ spec [] (text "db")
    ∷ spec (text "add") (text "new")
    ∷ spec (text "add") (text "new")
    ∷ []

abbrev pub two_components : List ApplicationComponent
two_components = component (text "web") ∷ component (text "db") ∷ []

-- A component is removed although its name was written with a space; the two additions of one name
-- both go through.
abbrev behind : Progress
behind = record (start plain two_components) {
  components = (text "db", record (component (text "db")) { image = text "nginx:2" }) ∷ [];
  calls =
      deleted_row (component (text "web"))
      ∷ updated_row (record (component (text "db")) { image = text "nginx:2" })
      ∷ created_row (added_component app (spec (text "add") (text "new")))
      ∷ created_row (added_component app (spec (text "add") (text "new")))
      ∷ [];
  updated = text "db" ∷ [];
  added = text "new" ∷ text "new" ∷ [];
  removed = text " Web" ∷ [];
}

applied :
    apply_specs plain none_fails.update_fails none_fails.create_fails none_fails.delete_fails app
      specs
      (start plain two_components)
    ≡ some behind
unfolding apply_specs apply_spec apply_action parse_component_action text_eq lookup insert to_lower
    trim_space delete changed_component
applied = refl

update_version-IsAccounted_example :
    IsAccounted plain (start plain two_components).components behind
update_version-IsAccounted_example =
    update_version-IsAccounted plain none_fails app two_components specs behind applied

abbrev step : Text → WorkflowStep
step name = record { name = name; mode = step_by_step; properties = []; sub_steps = [] }

names_step-sync_workflow_steps_example :
    names_step plain (text "web") (
      sync_workflow_steps plain
        (text "new" ∷ [])
        (text "Web" ∷ [])
        (step (text "Web") ∷ step (text "db") ∷ []))
    ≡ ((names_step plain (text "web") (step (text "Web") ∷ step (text "db") ∷ [])
          && not (member (text "web") (map (to_lower plain) (text "Web" ∷ []))))
        || member (text "web") (map (to_lower plain) (text "new" ∷ [])))
names_step-sync_workflow_steps_example =
    names_step-sync_workflow_steps plain (text "web") (text "new" ∷ []) (text "Web" ∷ [])
      (step (text "Web") ∷ step (text "db") ∷ [])

-- The step of a component that was removed under a name with a space stays.
kept_step :
    sync_workflow_steps plain [] (text " Web" ∷ []) (step (text "web") ∷ [])
    ≡ step (text "web") ∷ []
unfolding sync_workflow_steps text_eq to_lower
kept_step = refl
