-- ===== src/Application/Upsert.antt =====
-- pkg/apiserver/domain/service/application.go: the tables of the store, and
-- `upsertDefaultWorkflow` over them. The flags say which call of the store fails, and identifiers
-- drawn at random are arguments.
use kube_min_cli.Base.{
  ℕ, Bool, false, List, [], ◌∷◌, ◌++◌, Option, none, some, Text, text, Dict, is_nil, text_eq,
  if◌then◌else◌,
}
use kube_min_cli.Config.{created}
use kube_min_cli.Model.{WorkflowStep}
use kube_min_cli.Spec.{CreateComponentRequest, CreateApplicationsRequest}
use kube_min_cli.Application.Components.{Applications, ApplicationComponent, or_default}
use kube_min_cli.Application.References.{
  convert_workflow_steps_from_request, convert_workflow_step_by_component,
}
use kube_min_cli.Application.Template.{TemplateError}
use kube_min_cli.Application.WorkflowName.{
  Workflow, equal_fold, ensure_unique_workflow_name, ensure_unique_workflow_name_excluding,
  pick_default_workflow,
}

pub record Tables : Type 0 where
  pub applications : Dict Applications
  pub components : List ApplicationComponent
  pub workflows : List Workflow

abbrev pub components_of : Text → List ApplicationComponent → List ApplicationComponent
components_of app_id [] = []
components_of app_id (c ∷ cs) =
    let rest = components_of app_id cs in if text_eq c.app_id app_id then c ∷ rest else rest

abbrev pub other_components : Text → List ApplicationComponent → List ApplicationComponent
other_components app_id [] = []
other_components app_id (c ∷ cs) =
    let rest = other_components app_id cs in if text_eq c.app_id app_id then rest else c ∷ rest

abbrev pub workflows_of : Text → List Workflow → List Workflow
workflows_of app_id [] = []
workflows_of app_id (w ∷ ws) =
    let rest = workflows_of app_id ws in if text_eq w.app_id app_id then w ∷ rest else rest

-- `store.Put`: the row with the identifier is replaced.
unfoldable pub put_workflow : Workflow → List Workflow → List Workflow
put_workflow w [] = []
put_workflow w (v ∷ vs) = (if text_eq v.id w.id then w else v) ∷ put_workflow w vs

pub data CreateError : Type 0 where
  unknown_application store_failed component_not_image_set component_build create_components_failed
        create_workflow_failed :
      CreateError
  from_template : TemplateError → CreateError

pub data Answer {ℓ} (A : Type ℓ) : Type ℓ where
  done : A → Answer A
  refused : CreateError → Answer A

pub record CreateFailures : Type 0 where
  pub add_application : Bool
  pub delete_components : Bool
  pub add_components : Bool
  pub find_workflows : Bool
  pub add_workflow : Bool
  pub put_fails : Bool
  pub commit : Bool

module _ (fold : ℕ → ℕ) where
  -- The search always ends with a name: `ensure_unique_workflow_name-fresh`.
  abbrev pub unique_name : Text → List Workflow → Text
  unique_name base ws = elim (ensure_unique_workflow_name fold base ws) [ none ↦ base | some n ↦ n ]

  abbrev pub unique_name_excluding : Text → List Workflow → Text → Text
  unique_name_excluding base ws id = elim (ensure_unique_workflow_name_excluding fold base ws id) [
    | none ↦ base
    | some n ↦ n
  ]

  abbrev pub requested_steps :
      CreateApplicationsRequest → List CreateComponentRequest → List WorkflowStep
  requested_steps req resolved =
      if is_nil req.workflow_steps
      then convert_workflow_step_by_component resolved
      else convert_workflow_steps_from_request req.workflow_steps

  abbrev pub desired_name : CreateApplicationsRequest → Text
  desired_name req = req.name ++ text "-workflow"

  abbrev pub desired_alias : CreateApplicationsRequest → Text
  desired_alias req = or_default req.alias req.name ++ text "-workflow"

  -- The workflow of an application that has none, with the time of the row.
  unfoldable pub new_default_workflow :
      Text
      → ℕ
      → Applications
      → CreateApplicationsRequest
      → List WorkflowStep
      → List Workflow
      → Workflow
  new_default_workflow fresh now app req steps ws = record {
    id = fresh;
    name = unique_name (desired_name req) ws;
    namespace = app.namespace;
    alias = desired_alias req;
    disabled = false;
    project_id = app.project;
    app_id = app.id;
    description = app.description;
    workflow_type = text "workflow";
    status = created;
    steps = some steps;
    create_time = now;
    update_time = now;
  }

  -- The default workflow with the new steps; its name is kept if it is the desired one up to case.
  unfoldable pub refreshed_workflow :
      ℕ
      → Applications
      → CreateApplicationsRequest
      → List WorkflowStep
      → List Workflow
      → Workflow
      → Workflow
  refreshed_workflow now app req steps ws w = record {
    id = w.id;
    name =
        if equal_fold fold w.name (desired_name req)
        then w.name
        else unique_name_excluding (desired_name req) ws w.id;
    namespace = app.namespace;
    alias = desired_alias req;
    disabled = w.disabled;
    project_id = app.project;
    app_id = w.app_id;
    description = app.description;
    workflow_type = w.workflow_type;
    status = w.status;
    steps = some steps;
    create_time = w.create_time;
    update_time = now;
  }

  -- Behind the choice of the default workflow: the rows, and the answer.
  unfoldable pub upsert_picked :
      CreateFailures
      → Workflow
      → (Workflow → Workflow)
      → List Workflow
      → Option Workflow
      → List Workflow × Answer Workflow
  upsert_picked f fresh_workflow refresh table none =
      if f.add_workflow
      then (table, refused create_workflow_failed)
      else (table ++ (fresh_workflow ∷ []), done fresh_workflow)
  upsert_picked f fresh_workflow refresh table (some w) =
      if f.put_fails
      then (table, refused store_failed)
      else (put_workflow (refresh w) table, done (refresh w))

  unfoldable pub upsert_default_workflow :
      CreateFailures
      → Text
      → ℕ
      → Applications
      → CreateApplicationsRequest
      → List CreateComponentRequest
      → List Workflow
      → List Workflow × Answer Workflow
  upsert_default_workflow f fresh now app req resolved table =
      let steps = requested_steps req resolved in
      let ws = workflows_of app.id table in
      if f.find_workflows
      then (table, refused store_failed)
      else upsert_picked f (new_default_workflow fresh now app req steps ws)
          (refreshed_workflow now app req steps ws) table
          (pick_default_workflow fold ws (desired_name req) (desired_alias req))
