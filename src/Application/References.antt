-- ===== src/Application/References.antt =====
-- pkg/apiserver/domain/service/application.go: the components that the steps of a workflow refer to,
-- and the conversion of requested steps.
use kube_min_cli.Base.{
  Bool, true, false, List, [], ◌∷◌, ◌++◌, map, Text, is_nil, member, if◌then◌else◌,
}
use kube_min_cli.Config.{step_by_step, parse_workflow_mode}
use kube_min_cli.Naming.{Unicode, to_lower}
use kube_min_cli.Model.{WorkflowSubStep, WorkflowStep}
use kube_min_cli.Spec.{
  CreateComponentRequest, CreateWorkflowStepRequest, CreateWorkflowSubStepRequest,
}

-- `dedupeStrings`, the texts seen so far first.
unfoldable pub dedupe_strings : List Text → List Text → List Text
dedupe_strings seen [] = []
dedupe_strings seen (v ∷ vs) =
    let skipped = dedupe_strings seen vs in
    let kept = dedupe_strings (v ∷ seen) vs in
    if is_nil v then skipped else if member v seen then skipped else v ∷ kept

unfoldable pub merge_workflow_components : List Text → List Text → List Text
unfolding dedupe_strings
merge_workflow_components explicit policies = dedupe_strings [] (explicit ++ policies)

-- The one group of policies, if there are components.
abbrev pub policies_of : List Text → List (List Text)
policies_of names = if is_nil names then [] else names ∷ []

abbrev pub convert_sub_step : CreateWorkflowSubStepRequest → WorkflowSubStep
convert_sub_step r = record {
  name = r.name;
  properties = policies_of (merge_workflow_components r.components r.policies);
}

abbrev pub convert_step : CreateWorkflowStepRequest → WorkflowStep
convert_step r = record {
  name = r.name;
  mode = parse_workflow_mode r.mode;
  properties = policies_of (merge_workflow_components r.components r.policies);
  sub_steps = map convert_sub_step r.sub_steps;
}

unfoldable pub convert_workflow_steps_from_request :
    List CreateWorkflowStepRequest → List WorkflowStep
convert_workflow_steps_from_request = map convert_step

unfoldable pub convert_workflow_step_by_component : List CreateComponentRequest → List WorkflowStep
convert_workflow_step_by_component = map λ c. record {
  name = c.name;
  mode = step_by_step;
  properties = (c.name ∷ []) ∷ [];
  sub_steps = [];
}

module _ (u : Unicode) where
  -- False is `ErrWorkflowConfig`.
  unfoldable pub ensure_components_exist : List Text → List Text → Bool
  ensure_components_exist [] existing = true
  ensure_components_exist (n ∷ ns) existing =
      let rest = ensure_components_exist ns existing in
      if member (to_lower u n) existing then rest else false

  abbrev pub validate_sub_step_refs : List CreateWorkflowSubStepRequest → List Text → Bool
  validate_sub_step_refs [] existing = true
  validate_sub_step_refs (s ∷ ss) existing =
      let rest = validate_sub_step_refs ss existing in
      if ensure_components_exist (merge_workflow_components s.components s.policies) existing
      then rest
      else false

  unfoldable pub validate_workflow_component_refs :
      List CreateWorkflowStepRequest → List Text → Bool
  validate_workflow_component_refs [] existing = true
  validate_workflow_component_refs (s ∷ ss) existing =
      let rest = validate_workflow_component_refs ss existing in
      if ensure_components_exist (merge_workflow_components s.components s.policies) existing
      then (if validate_sub_step_refs s.sub_steps existing then rest else false)
      else false
