-- ===== src/Validation/Workflow.antt =====
-- pkg/apiserver/domain/service/validation.go: the steps of a workflow, and the components they
-- refer to. `known` are the lower-case names of the components.
use kube_min_cli.Base.{
  ℕ, suc, Bool, not, ◌&&◌, ◌||◌, List, [], ◌∷◌, ◌++◌, Text, text, text_eq, is_nil, member,
  if◌then◌else◌,
}
use kube_min_cli.Naming.{Unicode, to_lower}
use kube_min_cli.Spec.{CreateWorkflowStepRequest, CreateWorkflowSubStepRequest}
use kube_min_cli.Application.References.{merge_workflow_components}
use kube_min_cli.Validation.Errors.{
  at, Field, ◌▹◌, ErrorList, report, each, component_not_found, invalid_workflow_mode,
  duplicate_workflow_step, workflow_step_no_component,
}
use kube_min_cli.Validation.Names.{validate_name}

-- `validWorkflowModes`
abbrev pub is_workflow_mode : Text → Bool
is_workflow_mode m = text_eq m (text "StepByStep") || text_eq m (text "DAG") || is_nil m

module _ (u : Unicode) (known : List Text) where
  abbrev pub validate_reference : Text → Field → ErrorList
  validate_reference name field =
      report (not (member (to_lower u name) known)) field component_not_found

  -- A name is checked if there is one.
  abbrev pub validate_given_name : Text → Field → ErrorList
  validate_given_name name field = if is_nil name then [] else validate_name u name field

  unfoldable pub validate_sub_step : CreateWorkflowSubStepRequest → Field → ErrorList
  validate_sub_step s field =
      validate_given_name s.name (field ▹ "name")
      ++ each validate_reference 0 (field ▹ "components")
          (merge_workflow_components s.components s.policies)

  -- `seen` says whether an earlier step has the name.
  unfoldable pub validate_step : Bool → CreateWorkflowStepRequest → Field → ErrorList
  unfolding validate_sub_step
  validate_step seen s field =
      let all_components = merge_workflow_components s.components s.policies in
      validate_given_name s.name (field ▹ "name")
      ++ report (not (is_nil s.name) && seen) (field ▹ "name") duplicate_workflow_step
      ++ report (not (is_workflow_mode s.mode)) (field ▹ "mode") invalid_workflow_mode
      ++ report (is_nil all_components && is_nil s.sub_steps) field workflow_step_no_component
      ++ each validate_reference 0 (field ▹ "components") all_components
      ++ each validate_sub_step 0 (field ▹ "subSteps") s.sub_steps

  -- `stepNames` behind a step.
  abbrev pub remember_step : Text → List Text → List Text
  remember_step name step_names =
      if is_nil name
      then step_names
      else if member (to_lower u name) step_names
      then step_names
      else to_lower u name ∷ step_names

  unfoldable pub validate_steps : List Text → ℕ → Field → List CreateWorkflowStepRequest → ErrorList
  unfolding validate_step
  validate_steps step_names i field [] = []
  validate_steps step_names i field (s ∷ ss) =
      validate_step (member (to_lower u s.name) step_names) s (field ++ (at i ∷ []))
      ++ validate_steps (remember_step s.name step_names) (suc i) field ss

  unfoldable pub validate_workflow_steps : List CreateWorkflowStepRequest → Field → ErrorList
  unfolding validate_steps
  validate_workflow_steps steps field = validate_steps [] 0 field steps
