-- ===== src/Application/Trials.antt =====
-- Components from templates, creations and changes of workflows at concrete inputs.
use kube_min_cli.Regexp.{matches}
use kube_min_cli.Validation.Errors.{each, report}
use kube_min_cli.Validation.Names.{validate_name}
use kube_min_cli.Application.Resolve.{resolve_components}
use kube_min_cli.Application.Rewrite.{rewrite_plain, rewrite_traits}
use kube_min_cli.Base.{
  ◌≡◌, refl, true, false, [], ◌∷◌, ◌++◌, map, none, some, text, text_eq, lookup, byte_length,
}
use kube_min_cli.Config.{deploy}
use kube_min_cli.Naming.{to_lower}
use kube_min_cli.Spec.{
  Properties, traits, no_inits, no_sidecars, CreateWorkflowStepRequest, CreateApplicationsRequest,
  CreateComponentRequest,
}
use kube_min_cli.Application.Components.{
  ApplicationComponent, apply_property_overrides, prepare_components,
}
use kube_min_cli.Application.Create.{
  Database, create_applications, create_found, create_prepared, create_resolved,
  requested_application,
}
use kube_min_cli.Application.EditWorkflow.{
  UpdateWorkflowRequest, names_of, saved, created_workflow, update_application_workflow,
}
use kube_min_cli.Application.Edited.{try_workflow-saved}
use kube_min_cli.Application.Overrides.{clone_components-shared}
use kube_min_cli.Application.References.{merge_workflow_components}
use kube_min_cli.Application.Template.{ok, Override, picked, pick_override, clone_components}
use kube_min_cli.Application.Upsert.{
  Tables, Answer, done, CreateFailures, store_failed, refused, workflows_of,
}
use kube_min_cli.Application.WorkflowName.{Workflow}
use kube_min_cli.Application.Upserted.{create_applications-atomic}
use kube_min_cli.Validation.{try_workflow}
use kube_min_cli.Application.Tests.{
  plain, fold_case, app, component, workflow, two_components, two_workflows,
}

abbrev deploy_web : CreateWorkflowStepRequest
deploy_web = record {
  name = text "first";
  workflow_type = deploy;
  policies = text "web" ∷ text "db" ∷ [];
  components = text "web" ∷ [];
  mode = text "DAG";
  sub_steps = [];
}

abbrev no_properties : Properties
no_properties = record { image = []; env = []; secret = [] }

abbrev for_db : Override
for_db = record {
  name = text "mine";
  component_type = [];
  properties = no_properties;
  target = text "db";
  used = false;
}

abbrev shared_web : CreateComponentRequest
shared_web = record {
  name = text "web";
  component_type = text "webservice";
  image = text "nginx";
  namespace = text "prod";
  replicas = 1;
  properties = no_properties;
  component_traits =
      traits
        (record {
          storage = [];
          ingress = [];
          rbac = [];
          env_from = [];
          envs = [];
          probes = [];
          resources = none;
          share = some (record { strategy = [] });
        })
        no_inits no_sidecars;
  template = none;
}

shared_clone :
    clone_components plain (text "prod") app (component (text "web") ∷ []) (record {
      base_name = text "Shop";
      overrides = record for_db { target = text "web" } ∷ [];
      share = some (record { strategy = [] });
    })
    ≡ ok (shared_web ∷ [])
unfolding clone_components text_eq apply_property_overrides rewrite_traits rewrite_plain
shared_clone = refl

clone_components-shared_example :
    map (λ (d : CreateComponentRequest). d.name) (shared_web ∷ [])
    ≡ map (λ (c : ApplicationComponent). c.name) (component (text "web") ∷ [])
clone_components-shared_example =
    clone_components-shared plain (text "prod") (text "Shop") app (component (text "web") ∷ [])
      (record for_db { target = text "web" } ∷ []) (record { strategy = [] }) (shared_web ∷ [])
      shared_clone

-- The override with the target `db` is taken by `web`, which comes first.
wrong_target :
    pick_override (text "web") (text "webservice") (for_db ∷ [])
    ≡ picked for_db (record for_db { used = true } ∷ [])
unfolding pick_override text_eq
wrong_target = refl

abbrev store_down : CreateFailures
store_down = record {
  add_application = false;
  delete_components = false;
  add_components = false;
  find_workflows = true;
  add_workflow = false;
  put_fails = false;
  commit = false;
}

abbrev tables : Tables
tables = record {
  applications = (text "a1", app) ∷ [];
  components = two_components;
  workflows = two_workflows;
}

-- A transaction has not begun.
abbrev database : Database
database = record { stored = tables; staged = tables }

abbrev shop : CreateApplicationsRequest
shop = record {
  id = text "a1";
  name = text "Shop";
  namespace = [];
  alias = [];
  version = [];
  project = [];
  description = [];
  icon = [];
  component = shared_web ∷ [];
  workflow_steps = deploy_web ∷ [];
  tmp_enable = none;
}

creation_refused :
    create_applications plain fold_case store_down true (text "a2") (text "w2") 9 shop database
    ≡ (database, refused store_failed)
unfolding create_applications create_found requested_application lookup text_eq create_resolved
    resolve_components create_prepared prepare_components
creation_refused = refl

create_applications-atomic_example : database.stored ≡ database.stored
create_applications-atomic_example =
    create_applications-atomic plain fold_case store_down (text "a2") (text "w2") 9 shop database
      database store_failed creation_refused

abbrev store_up : CreateFailures
store_up = record store_down { find_workflows = false }

abbrev web_row : ApplicationComponent
web_row = component (text "web")

abbrev creation : Database × Answer Workflow
creation =
    create_prepared plain fold_case store_up true (text "w2") 9 shop database app []
      (some (web_row ∷ []))

-- The workflow of an answer.
abbrev some_workflow : Workflow
some_workflow = workflow (text "Flow")

abbrev created : Answer Workflow → Workflow
created (done w) = w
created (refused e) = some_workflow

abbrev new_flow : UpdateWorkflowRequest
new_flow = record { workflow_id = []; name = text "flow"; alias = []; workflow = deploy_web ∷ [] }

trial_valid :
    (try_workflow plain
      (some (names_of two_components))
      (text "a1")
      (record { name = text "flow"; workflow = deploy_web ∷ [] })).valid
    ≡ true
unfolding try_workflow validate_name report byte_length matches to_lower text_eq
    merge_workflow_components each
trial_valid = refl

try_workflow-saved_example :
    let added =
      created_workflow plain fold_case
        (text "w2")
        9
        app
        new_flow
        (workflows_of (text "a1") two_workflows) in
    update_application_workflow plain fold_case false
      (text "w2")
      9
      app
      two_components
      new_flow
      two_workflows
    ≡ (two_workflows ++ (added ∷ []), saved added)
try_workflow-saved_example =
    try_workflow-saved plain fold_case (text "w2") 9 app two_components new_flow two_workflows refl
      refl trial_valid
