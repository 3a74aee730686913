-- ===== src/Application/Create.antt =====
-- pkg/apiserver/domain/service/application.go: `CreateApplications` over the tables of the store.
use kube_min_cli.Base.{
  ℕ, Bool, not, ◌&&◌, List, ◌++◌, Option, none, some, Text, text, Dict, lookup, insert, is_nil,
  if◌then◌else◌,
}
use kube_min_cli.Naming.{Unicode}
use kube_min_cli.Spec.{CreateComponentRequest, CreateApplicationsRequest}
use kube_min_cli.Application.Components.{
  Applications, ApplicationComponent, or_default, refresh_existing_application, new_application,
  prepare_components,
}
use kube_min_cli.Application.Resolve.{resolve_components}
use kube_min_cli.Application.Template.{Result, ok, failed}
use kube_min_cli.Application.Upsert.{
  Tables, components_of, other_components, unknown_application, store_failed,
  component_not_image_set, component_build, create_components_failed, from_template, Answer, done,
  refused, CreateFailures, upsert_default_workflow,
}
use kube_min_cli.Application.WorkflowName.{Workflow}

-- What a call of the store goes to: `c.Store`, or the `store` of an open transaction.
pub data Handle : Type 0 where
  base tx : Handle

-- The tables that are stored, and those that the open transaction sees. The database isolates them,
-- so a write to one is not seen in the other.
pub record Database : Type 0 where
  pub stored : Tables
  pub staged : Tables

abbrev pub seen : Handle → Database → Tables
seen base db = db.stored
seen tx db = db.staged

abbrev pub write : Handle → Tables → Database → Database
write base t db = record { stored = t; staged = db.staged }
write tx t db = record { stored = db.stored; staged = t }

-- A transaction begins with the stored tables; a rollback drops what is staged, and a commit that
-- succeeds stores it.
abbrev pub begin : Database → Database
begin db = record { stored = db.stored; staged = db.stored }

abbrev pub settle : Bool → Database × Answer Workflow → Database × Answer Workflow
settle commit_fails (after, refused e) = (begin after, refused e)
settle commit_fails (after, done w) =
    if commit_fails
    then (begin after, refused store_failed)
    else (record { stored = after.staged; staged = after.staged }, done w)

abbrev pub add_application_row : Applications → Tables → Tables
add_application_row app t = record {
  applications = insert app.id app t.applications;
  components = t.components;
  workflows = t.workflows;
}

abbrev pub set_components : List ApplicationComponent → Tables → Tables
set_components cs t = record {
  applications = t.applications;
  components = cs;
  workflows = t.workflows;
}

abbrev pub set_workflows : List Workflow → Tables → Tables
set_workflows ws t = record {
  applications = t.applications;
  components = t.components;
  workflows = ws;
}

module _ (u : Unicode) (fold : ℕ → ℕ) where
  -- `run` on a store: what it wrote when a call fails stays written there.
  unfoldable pub run_creation :
      CreateFailures
      → Text
      → ℕ
      → Applications
      → CreateApplicationsRequest
      → List CreateComponentRequest
      → List ApplicationComponent
      → Handle
      → Database
      → Database × Answer Workflow
  unfolding upsert_default_workflow
  run_creation f fresh now app req resolved components h db =
      let d1 = write h (add_application_row app (seen h db)) db in
      let d2 =
        write h (set_components (other_components app.id (seen h d1).components) (seen h d1)) d1 in
      let d3 = write h (set_components ((seen h d2).components ++ components) (seen h d2)) d2 in
      let upserted =
        upsert_default_workflow fold f fresh now app req resolved (seen h d3).workflows in
      let d4 = write h (set_workflows upserted.0 (seen h d3)) d3 in
      if f.add_application
      then (db, refused store_failed)
      else if f.delete_components
      then (d1, refused component_build)
      else if f.add_components && not (is_nil components)
      then (d2, refused create_components_failed)
      else (d4, upserted.1)

  -- The application of the request, with its namespace.
  unfoldable pub requested_application :
      Text → CreateApplicationsRequest → Dict Applications → Option Applications
  requested_application fresh req apps =
      let found = elim (lookup req.id apps) as (λ _. Option Applications) [
        | none ↦ none
        | some app ↦ some (refresh_existing_application req app)
      ] in
      if is_nil req.id then some (new_application fresh req) else found

  abbrev pub with_namespace : Applications → Applications
  with_namespace app = record {
    id = app.id;
    name = app.name;
    namespace = or_default app.namespace (text "default");
    version = app.version;
    alias = app.alias;
    project = app.project;
    description = app.description;
    icon = app.icon;
    tmp_enable = app.tmp_enable;
  }

  abbrev pub with_version : CreateApplicationsRequest → CreateApplicationsRequest
  with_version req = record {
    id = req.id;
    name = req.name;
    namespace = req.namespace;
    alias = req.alias;
    version = or_default req.version (text "1.0.0");
    project = req.project;
    description = req.description;
    icon = req.icon;
    component = req.component;
    workflow_steps = req.workflow_steps;
    tmp_enable = req.tmp_enable;
  }

  -- The handler behind each of its steps: the components prepared, the components resolved, the
  -- application found.
  module _ (f : CreateFailures) (transactional : Bool) (fresh_workflow : Text) (now : ℕ)
      (req : CreateApplicationsRequest) (db : Database) where
    unfoldable pub create_prepared :
        Applications
        → List CreateComponentRequest
        → Option (List ApplicationComponent)
        → Database × Answer Workflow
    unfolding run_creation
    create_prepared app resolved none = (db, refused component_not_image_set)
    create_prepared app resolved (some components) =
        if transactional
        then settle f.commit
            (run_creation f fresh_workflow now app req resolved components tx (begin db))
        else run_creation f fresh_workflow now app req resolved components base db

    unfoldable pub create_resolved :
        Applications → Result (List CreateComponentRequest) → Database × Answer Workflow
    create_resolved app (failed e) = (db, refused (from_template e))
    create_resolved app (ok resolved) =
        create_prepared app resolved (prepare_components app.id app.namespace resolved)

    unfoldable pub create_found : Option Applications → Database × Answer Workflow
    create_found none = (db, refused unknown_application)
    create_found (some found) =
        let app = with_namespace found in
        create_resolved app (
          resolve_components u (λ id. lookup id db.stored.applications)
            (λ id. some (components_of id db.stored.components)) app.namespace app.name
            req.component)

  -- `CreateApplications`; the first identifier is for the application, the second for the workflow.
  unfoldable pub create_applications :
      CreateFailures
      → Bool
      → Text
      → Text
      → ℕ
      → CreateApplicationsRequest
      → Database
      → Database × Answer Workflow
  create_applications f transactional fresh_app fresh_workflow now request db =
      let req = with_version request in
      create_found f transactional fresh_workflow now req db
        (requested_application fresh_app req db.stored.applications)
