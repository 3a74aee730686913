-- ===== src/Application/Release.antt =====
-- pkg/apiserver/domain/service/application.go: `UpdateVersion` as a whole, for an application that
-- the repository finds. The flags say which of the other repository calls fail.
use kube_min_cli.Base.{
  ℕ, Bool, true, not, ◌&&◌, ◌||◌, List, [], ◌∷◌, Option, none, some, Text, is_nil, if◌then◌else◌,
}
use kube_min_cli.Config.{waiting, UpdateStrategy, parse_update_strategy}
use kube_min_cli.Model.{WorkflowStep, WorkflowQueue}
use kube_min_cli.Naming.{Unicode}
use kube_min_cli.Application.Components.{Applications, ApplicationComponent, or_default}
use kube_min_cli.Application.Version.{
  UpdateVersionRequest, Progress, start, apply_specs, sync_workflow_steps,
}
use kube_min_cli.Application.WorkflowName.{Workflow}

-- `workflow_fails` is the update of the workflow, `queue_fails` the creation of the task.
pub record Failures : Type 0 where
  pub update_fails : Text → Bool
  pub create_fails : Text → Bool
  pub delete_fails : Text → Bool
  pub app_fails : Bool
  pub workflow_fails : Bool
  pub queue_fails : Bool

pub record UpdateVersionResponse : Type 0 where
  pub version : Text
  pub previous_version : Text
  pub strategy : UpdateStrategy
  pub updated_components : List Text
  pub added_components : List Text
  pub removed_components : List Text
  pub task_id : Option Text

-- What the handler leaves: the application, the steps written to the first workflow, the task in
-- the queue, the answer.
pub record Released : Type 0 where
  pub application : Applications
  pub progress : Progress
  pub written_steps : Option (List WorkflowStep)
  pub queued : Option WorkflowQueue
  pub response : UpdateVersionResponse

-- `execWorkflow`; `fresh` is the random identifier and `now` the time of the row.
unfoldable pub exec_workflow : Text → ℕ → Bool → Workflow → Option WorkflowQueue
exec_workflow fresh now fails w = elim w.steps [
  | none ↦ none
  | some steps ↦
      if fails
      then none
      else some (record {
        task_id = fresh;
        project_id = w.project_id;
        workflow_name = w.name;
        app_id = w.app_id;
        workflow_id = w.id;
        status = waiting;
        task_revoker = [];
        create_time = now;
        update_time = now;
      })
]

abbrev pub exec_first : Text → ℕ → Bool → List Workflow → Option WorkflowQueue
exec_first fresh now fails [] = none
exec_first fresh now fails (w ∷ ws) = exec_workflow fresh now fails w

module _ (u : Unicode) where
  abbrev pub sync_steps_of :
      List Text → List Text → Option (List WorkflowStep) → Option (List WorkflowStep)
  sync_steps_of added removed none = none
  sync_steps_of added removed (some steps) = some (sync_workflow_steps u added removed steps)

  abbrev pub sync_first : Bool → List Text → List Text → List Workflow → Option (List WorkflowStep)
  sync_first fails added removed [] = none
  sync_first fails added removed (w ∷ ws) =
      let synced = sync_steps_of added removed w.steps in if fails then none else synced

  abbrev pub has_changes : Progress → Bool
  has_changes p = not (is_nil p.updated) || not (is_nil p.added) || not (is_nil p.removed)

  unfoldable pub update_version :
      Failures
      → Text
      → ℕ
      → Applications
      → List ApplicationComponent
      → List Workflow
      → UpdateVersionRequest
      → Option Released
  unfolding exec_workflow
  update_version f fresh now app components workflows req =
      let new_app : Applications = record {
        id = app.id;
        name = app.name;
        namespace = app.namespace;
        version = req.version;
        alias = app.alias;
        project = app.project;
        description = or_default req.description app.description;
        icon = app.icon;
        tmp_enable = app.tmp_enable;
      } in
      elim (apply_specs u f.update_fails f.create_fails f.delete_fails app req.components
        (start u components)) [
          | none ↦ none
          | some p ↦
              let sync = not (is_nil p.added) || not (is_nil p.removed) in
              let auto_exec : Bool = elim req.auto_exec [ none ↦ true | some b ↦ b ] in
              let task =
                if auto_exec && has_changes p
                then exec_first fresh now f.queue_fails workflows
                else none in
              if f.app_fails
              then none
              else some (record {
                application = new_app;
                progress = p;
                written_steps =
                    if sync then sync_first f.workflow_fails p.added p.removed workflows else none;
                queued = task;
                response = record {
                  version = req.version;
                  previous_version = app.version;
                  strategy = parse_update_strategy req.strategy;
                  updated_components = p.updated;
                  added_components = p.added;
                  removed_components = p.removed;
                  task_id = elim task [ none ↦ none | some t ↦ some t.task_id ];
                };
              })
        ]
