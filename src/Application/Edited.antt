-- ===== src/Application/Edited.antt =====
-- What a change of a workflow checks, and how it answers a request that a trial found valid.
use kube_min_cli.Base.{
  ℕ, ◌≡◌, refl, sym, ◌∙◌, subst, Bool, true, false, not, List, [], ◌∷◌, ◌++◌, map, Option, none,
  some, Text, is_nil, text_eq, text_eq_refl, if◌then◌else◌, arith,
}
use kube_min_cli.Naming.{Unicode, to_lower}
use kube_min_cli.Spec.{TryWorkflowRequest}
use kube_min_cli.Application.Components.{Applications, ApplicationComponent}
use kube_min_cli.Application.EditWorkflow.{
  UpdateWorkflowRequest, workflow_config, store_error, EditAnswer, saved, rejected, names_of,
  lower_component_names, created_workflow, edited_workflow, edit_found, find_workflow,
  update_application_workflow,
}
use kube_min_cli.Application.References.{validate_workflow_component_refs}
use kube_min_cli.Application.Upsert.{workflows_of, put_workflow}
use kube_min_cli.Application.WorkflowName.{Workflow}
use kube_min_cli.Validation.{try_workflow}
use kube_min_cli.Validation.Accepted.{try_workflow-accepts, try_workflow-resolves}

module _ (u : Unicode) (fold : ℕ → ℕ) (fails : Bool) (fresh : Text) (now : ℕ) (app : Applications)
    (cs : List ApplicationComponent) (req : UpdateWorkflowRequest) (table : List Workflow) where
  -- What is saved was checked, and a refusal leaves the rows.
  abbrev pub IsChecked : List Workflow × EditAnswer → Type 0
  IsChecked (after, saved w) =
      (text_eq w.app_id app.id ≡ true)
      × (validate_workflow_component_refs u req.workflow (lower_component_names u fold cs) ≡ true)
  IsChecked (after, rejected e) = after ≡ table

  if-IsChecked :
      (b : Bool) (x y : List Workflow × EditAnswer)
      → (b ≡ true → IsChecked x)
      → (b ≡ false → IsChecked y)
      → IsChecked (if b then x else y)
  if-IsChecked true x y h k = h refl
  if-IsChecked false x y h k = k refl

  -- A row that is saved is of the application, and the components that the steps of the request list
  -- passed the check against those of the application; a refusal leaves the rows as they were. The
  -- check does not read the name of a step that lists no component.
  pub update_application_workflow-IsChecked :
      IsChecked (update_application_workflow u fold fails fresh now app cs req table)
  unfolding update_application_workflow created_workflow edited_workflow
  update_application_workflow-IsChecked =
      let added = created_workflow u fold fresh now app req (workflows_of app.id table) in
      let existing =
        edit_found u fold fails now app req table (find_workflow req.workflow_id table) in
      let refs =
        validate_workflow_component_refs u req.workflow (lower_component_names u fold cs) in
      if-IsChecked (is_nil req.workflow) (table, rejected workflow_config) _ (λ e. refl)
        λ e.
          if-IsChecked (not refs) (table, rejected workflow_config) _ (λ e. refl)
            λ ok.
              if-IsChecked (not (is_nil req.workflow_id)) existing _
                (λ e. found (find_workflow req.workflow_id table) (ground arith))
                (λ e.
                  if-IsChecked fails (table, rejected store_error)
                    (table ++ (added ∷ []), saved added) (λ e. refl)
                    (λ e. (text_eq_refl app.id, ground arith)))
    where
      found :
          (o : Option Workflow)
          → validate_workflow_component_refs u req.workflow (lower_component_names u fold cs) ≡ true
          → IsChecked (edit_found u fold fails now app req table o)
      found none ok = refl
      found (some w) ok =
          let target = edited_workflow u fold now req w in
          if-IsChecked (not (text_eq w.app_id app.id)) (table, rejected workflow_config) _
            (λ e. refl)
            (λ same.
              if-IsChecked fails (table, rejected store_error)
                (put_workflow target table, saved target) (λ e. refl) (λ e. (ground arith, ok)))

-- A new workflow that a trial found valid for the stored components is saved, unless the store fails.
pub try_workflow-saved :
    (u : Unicode) (fold : ℕ → ℕ) (fresh : Text) (now : ℕ) (app : Applications)
    (cs : List ApplicationComponent) (req : UpdateWorkflowRequest) (table : List Workflow)
    → is_nil app.id ≡ false
    → is_nil req.workflow_id ≡ true
    → (try_workflow u
        (some (names_of cs))
        app.id
        (record { name = req.name; workflow = req.workflow })).valid
      ≡ true
    → let added = created_workflow u fold fresh now app req (workflows_of app.id table) in
      update_application_workflow u fold false fresh now app cs req table
      ≡ (table ++ (added ∷ []), saved added)
unfolding update_application_workflow
try_workflow-saved u fold fresh now app cs req table known new valid =
    let trial : TryWorkflowRequest = record { name = req.name; workflow = req.workflow } in
    let names = some (names_of cs) in
    let refs = try_workflow-resolves u names app.id trial valid in
    let ok = sym (try_workflow-accepts u names app.id trial) ∙ valid in
    let given : is_nil req.workflow ≡ false = ground arith in
    let found : validate_workflow_component_refs u req.workflow (lower_component_names u fold cs)
        ≡ true =
      subst
        (λ b.
          validate_workflow_component_refs u req.workflow
            (if b then [] else map (to_lower u) (names_of cs))
          ≡ true)
        known refs in
    rw given (rw found (rw new refl))
