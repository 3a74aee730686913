-- ===== src/Validation/Accepted.antt =====
-- What a valid answer means, and that the application service then finds each component that a
-- workflow refers to.
use kube_min_cli.Base.{
  ◌≡◌, refl, sym, ◌∙◌, true, not, ◌&&◌, List, [], ◌∷◌, Text, is_nil, all, member, Option,
  if◌then◌else◌, arith, distinct, distinct_from_lem, avoids_nothing,
}
use kube_min_cli.Naming.{Unicode, to_lower}
use kube_min_cli.Spec.{
  CreateApplicationsRequest, CreateWorkflowStepRequest, CreateWorkflowSubStepRequest,
  TryWorkflowRequest,
}
use kube_min_cli.Application.References.{
  merge_workflow_components, ensure_components_exist, validate_sub_step_refs,
  validate_workflow_component_refs,
}
use kube_min_cli.Validation.{validate_components, try_application, try_workflow, stored_names}
use kube_min_cli.Validation.Errors.{Field, ◌▹◌, report, missing_required_field}
use kube_min_cli.Validation.Accept.{is_nil-append, is_nil-three}
use kube_min_cli.Validation.Names.{validate_name}
use kube_min_cli.Validation.Label.{name_ok, validate_name-IsTest}
use kube_min_cli.Validation.Requests.{
  component_ok, lower_names, validate_components-nil, member-validate_components,
}
use kube_min_cli.Validation.Steps.{
  given_name_ok, step_names, refs_ok, sub_step_ok, step_ok, validate_steps-nil,
}
use kube_min_cli.Validation.Workflow.{validate_workflow_steps}

-- Two lists with the same members.
abbrev SameMembers : List Text → List Text → Type 0
SameMembers xs ys = (k : Text) → member k xs ≡ member k ys

module _ (u : Unicode) (a b : List Text) (same : SameMembers a b) where
  refs_ok_same : (ns : List Text) → refs_ok u a ns ≡ refs_ok u b ns
  refs_ok_same [] = refl
  refs_ok_same (n ∷ ns) = ground (arith, same (to_lower u n), refs_ok_same ns)

  sub_steps_ok_same :
      (ss : List CreateWorkflowSubStepRequest) → all (sub_step_ok u a) ss ≡ all (sub_step_ok u b) ss
  unfolding sub_step_ok
  sub_steps_ok_same [] = refl
  sub_steps_ok_same (s ∷ ss) = ground (
    arith,
    refs_ok_same (merge_workflow_components s.components s.policies),
    sub_steps_ok_same ss,
  )

  steps_ok_same :
      (ss : List CreateWorkflowStepRequest) → all (step_ok u a) ss ≡ all (step_ok u b) ss
  unfolding step_ok
  steps_ok_same [] = refl
  steps_ok_same (s ∷ ss) = ground (
    arith,
    refs_ok_same (merge_workflow_components s.components s.policies),
    sub_steps_ok_same s.sub_steps,
    steps_ok_same ss,
  )

module _ (u : Unicode) where
  validate_workflow_steps-nil :
      (known : List Text) (ss : List CreateWorkflowStepRequest) (field : Field)
      → is_nil (validate_workflow_steps u known ss field)
        ≡ (all (step_ok u known) ss && distinct (step_names u ss))
  unfolding validate_workflow_steps
  validate_workflow_steps-nil known ss field = ground (
    arith,
    validate_steps-nil u known [] 0 field ss,
    distinct_from_lem [] (step_names u ss),
    avoids_nothing (step_names u ss),
  )

  -- An application is valid just when its name is accepted, each component follows its rule, no two
  -- components have the same name up to case, each step follows its rule for the names of these
  -- components, and no two named steps have the same name up to case.
  pub try_application-accepts :
      (req : CreateApplicationsRequest)
      → (try_application u req).valid ≡ (
          name_ok u req.name
          && all (component_ok u) req.component
          && distinct (lower_names u req.component)
          && all (step_ok u (lower_names u req.component)) req.workflow_steps
          && distinct (step_names u req.workflow_steps))
  unfolding try_application
  try_application-accepts req =
      let cs = validate_components u [] 0 ([] ▹ "component") req.component in
      let known = lower_names u req.component in
      let steps = req.workflow_steps in
      let names = validate_name u req.name ([] ▹ "name") in
      let flow = validate_workflow_steps u cs.1 steps ([] ▹ "workflow") in
      is_nil-three names cs.0 flow
      ∙ ground (
        arith,
        validate_name-IsTest u req.name ([] ▹ "name"),
        validate_components-nil u [] 0 ([] ▹ "component") req.component,
        validate_workflow_steps-nil cs.1 steps ([] ▹ "workflow"),
        steps_ok_same u cs.1 known
            (λ k. member-validate_components u k [] 0 ([] ▹ "component") req.component) steps,
        distinct_from_lem [] known,
        avoids_nothing known,
      )

  refs_ok-exist :
      (known ns : List Text) → refs_ok u known ns ≡ true → ensure_components_exist u ns known ≡ true
  unfolding ensure_components_exist
  refs_ok-exist known [] h = refl
  refs_ok-exist known (n ∷ ns) h = ground (arith, refs_ok-exist known ns)

  sub_steps_ok-resolve :
      (known : List Text) (ss : List CreateWorkflowSubStepRequest)
      → all (sub_step_ok u known) ss ≡ true
      → validate_sub_step_refs u ss known ≡ true
  unfolding sub_step_ok
  sub_steps_ok-resolve known [] h = refl
  sub_steps_ok-resolve known (s ∷ ss) h = ground (
    arith,
    refs_ok-exist known (merge_workflow_components s.components s.policies),
    sub_steps_ok-resolve known ss,
  )

  step_ok_refs :
      (known : List Text) (s : CreateWorkflowStepRequest)
      → step_ok u known s ≡ true
      → (refs_ok u known (merge_workflow_components s.components s.policies) ≡ true)
        × (all (sub_step_ok u known) s.sub_steps ≡ true)
  unfolding step_ok
  step_ok_refs known s h = (ground arith, ground arith)

  steps_ok-resolve :
      (known : List Text) (ss : List CreateWorkflowStepRequest)
      → all (step_ok u known) ss ≡ true
      → validate_workflow_component_refs u ss known ≡ true
  unfolding validate_workflow_component_refs
  steps_ok-resolve known [] h = refl
  steps_ok-resolve known (s ∷ ss) h =
      let here : step_ok u known s ≡ true = ground arith in
      let ok = step_ok_refs known s here in
      let refs = refs_ok-exist known (merge_workflow_components s.components s.policies) ok.0 in
      let subs = sub_steps_ok-resolve known s.sub_steps ok.1 in
      let later = steps_ok-resolve known ss (ground arith) in rw refs (rw subs later)

  -- In a valid application the workflow passes the check of the application service against the
  -- components of the application.
  pub try_application-resolves :
      (req : CreateApplicationsRequest)
      → (try_application u req).valid ≡ true
      → validate_workflow_component_refs u req.workflow_steps (lower_names u req.component) ≡ true
  try_application-resolves req h =
      steps_ok-resolve (lower_names u req.component) req.workflow_steps
        (let ok = sym (try_application-accepts req) ∙ h in ground arith)

  -- A workflow is valid just when its name, if it has one, is accepted, it has a step, each step
  -- follows its rule for the names of the stored components, and no two named steps have the same
  -- name up to case.
  pub try_workflow-accepts :
      (stored : Option (List Text)) (app_id : Text) (req : TryWorkflowRequest)
      → (try_workflow u stored app_id req).valid ≡ (
          given_name_ok u req.name
          && not (is_nil req.workflow)
          && all (step_ok u (stored_names u app_id stored)) req.workflow
          && distinct (step_names u req.workflow))
  unfolding try_workflow report
  try_workflow-accepts stored app_id req =
      let known = stored_names u app_id stored in
      let flow = validate_workflow_steps u known req.workflow ([] ▹ "workflow") in
      is_nil-append (if is_nil req.name then [] else validate_name u req.name ([] ▹ "name"))
        (if is_nil req.workflow then report true ([] ▹ "workflow") missing_required_field else flow)
      ∙ ground (
        arith,
        validate_name-IsTest u req.name ([] ▹ "name"),
        validate_workflow_steps-nil known req.workflow ([] ▹ "workflow"),
      )

  -- A valid workflow passes the check of the application service against the stored components.
  pub try_workflow-resolves :
      (stored : Option (List Text)) (app_id : Text) (req : TryWorkflowRequest)
      → (try_workflow u stored app_id req).valid ≡ true
      → validate_workflow_component_refs u req.workflow (stored_names u app_id stored) ≡ true
  try_workflow-resolves stored app_id req h =
      steps_ok-resolve (stored_names u app_id stored) req.workflow
        (let ok = sym (try_workflow-accepts stored app_id req) ∙ h in ground arith)
