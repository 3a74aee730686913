-- ===== src/Application/EditWorkflow.antt =====
-- pkg/apiserver/domain/service/application.go: `UpdateApplicationWorkflow` for an application that
-- the repository finds, over the workflows of the store.
use kube_min_cli.Base.{
  ℕ, Bool, false, not, List, [], ◌∷◌, ◌++◌, map, Option, none, some, Text, text, is_nil, text_eq,
  if◌then◌else◌,
}
use kube_min_cli.Config.{created}
use kube_min_cli.Naming.{Unicode, trim_space, to_lower}
use kube_min_cli.Spec.{CreateWorkflowStepRequest}
use kube_min_cli.Application.Components.{Applications, ApplicationComponent, or_default}
use kube_min_cli.Application.References.{
  convert_workflow_steps_from_request, validate_workflow_component_refs,
}
use kube_min_cli.Application.Upsert.{workflows_of, put_workflow, unique_name}
use kube_min_cli.Application.WorkflowName.{Workflow}

pub record UpdateWorkflowRequest : Type 0 where
  pub workflow_id : Text
  pub name : Text
  pub alias : Text
  pub workflow : List CreateWorkflowStepRequest

pub data EditError : Type 0 where
  workflow_config workflow_not_exist store_error : EditError

pub data EditAnswer : Type 0 where
  saved : Workflow → EditAnswer
  rejected : EditError → EditAnswer

-- `deriveWorkflowMetadata`: what the first workflow of the application says goes before the
-- application's own namespace, project and description.
unfoldable pub derive_workflow_metadata : Applications → List Workflow → Text × Text × Text
derive_workflow_metadata app [] = (app.namespace, app.project, app.description)
derive_workflow_metadata app (w ∷ ws) = (
  or_default w.namespace app.namespace,
  or_default w.project_id app.project,
  or_default w.description app.description,
)

abbrev pub find_workflow : Text → List Workflow → Option Workflow
find_workflow id [] = none
find_workflow id (w ∷ ws) =
    let rest = find_workflow id ws in if text_eq w.id id then some w else rest

abbrev pub names_of : List ApplicationComponent → List Text
names_of cs = map (λ (c : ApplicationComponent). c.name) cs

module _ (u : Unicode) (fold : ℕ → ℕ) where
  -- `componentSet`
  abbrev pub lower_component_names : List ApplicationComponent → List Text
  lower_component_names cs = map (to_lower u) (names_of cs)

  -- `targetName` of the request.
  abbrev pub requested_name : UpdateWorkflowRequest → Text
  requested_name req = to_lower u (trim_space u req.name)

  abbrev pub new_name : Applications → UpdateWorkflowRequest → List Workflow → Text
  new_name app req ws =
      unique_name fold (or_default (requested_name req) (to_lower u app.name ++ text "-workflow"))
        ws

  unfoldable pub created_workflow :
      Text → ℕ → Applications → UpdateWorkflowRequest → List Workflow → Workflow
  unfolding derive_workflow_metadata
  created_workflow fresh now app req ws =
      let metadata = derive_workflow_metadata app ws in
      record {
        id = fresh;
        name = new_name app req ws;
        namespace = metadata.0;
        alias = req.alias;
        disabled = false;
        project_id = metadata.1;
        app_id = app.id;
        description = metadata.2;
        workflow_type = text "workflow";
        status = created;
        steps = some (convert_workflow_steps_from_request req.workflow);
        create_time = now;
        update_time = now;
      }

  -- The name of an existing workflow is not made unique.
  unfoldable pub edited_workflow : ℕ → UpdateWorkflowRequest → Workflow → Workflow
  edited_workflow now req w = record {
    id = w.id;
    name = or_default (requested_name req) w.name;
    namespace = w.namespace;
    alias = or_default req.alias w.alias;
    disabled = w.disabled;
    project_id = w.project_id;
    app_id = w.app_id;
    description = w.description;
    workflow_type = w.workflow_type;
    status = w.status;
    steps = some (convert_workflow_steps_from_request req.workflow);
    create_time = w.create_time;
    update_time = now;
  }

  -- Behind the lookup of the workflow with the identifier.
  abbrev pub edit_found :
      Bool
      → ℕ
      → Applications
      → UpdateWorkflowRequest
      → List Workflow
      → Option Workflow
      → List Workflow × EditAnswer
  edit_found fails now app req table none = (table, rejected workflow_not_exist)
  edit_found fails now app req table (some w) =
      let target = edited_workflow now req w in
      if not (text_eq w.app_id app.id)
      then (table, rejected workflow_config)
      else if fails
      then (table, rejected store_error)
      else (put_workflow target table, saved target)

  unfoldable pub update_application_workflow :
      Bool
      → Text
      → ℕ
      → Applications
      → List ApplicationComponent
      → UpdateWorkflowRequest
      → List Workflow
      → List Workflow × EditAnswer
  update_application_workflow fails fresh now app components req table =
      let added = created_workflow fresh now app req (workflows_of app.id table) in
      let existing = edit_found fails now app req table (find_workflow req.workflow_id table) in
      if is_nil req.workflow
      then (table, rejected workflow_config)
      else if not
          (validate_workflow_component_refs u req.workflow (lower_component_names components))
      then (table, rejected workflow_config)
      else if not (is_nil req.workflow_id)
      then existing
      else if fails
      then (table, rejected store_error)
      else (table ++ (added ∷ []), saved added)
