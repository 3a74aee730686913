-- ===== src/Validation/Steps.antt =====
-- The rules for the steps of a workflow.
use kube_min_cli.Base.{
  ℕ, suc, ◌≡◌, refl, Bool, not, ◌&&◌, ◌||◌, List, [], ◌∷◌, ◌++◌, Text, is_nil, all, member,
  if◌then◌else◌, arith, distinct_from,
}
use kube_min_cli.Naming.{Unicode, to_lower}
use kube_min_cli.Spec.{CreateWorkflowStepRequest, CreateWorkflowSubStepRequest}
use kube_min_cli.Application.References.{merge_workflow_components}
use kube_min_cli.Validation.Errors.{
  at, Field, ◌▹◌, report, each, invalid_workflow_mode, duplicate_workflow_step,
  workflow_step_no_component,
}
use kube_min_cli.Validation.Accept.{is_nil-append, IsTest, each-IsTest}
use kube_min_cli.Validation.Label.{name_ok, validate_name-IsTest}
use kube_min_cli.Validation.Workflow.{
  is_workflow_mode, validate_reference, validate_given_name, validate_sub_step, validate_step,
  remember_step, validate_steps,
}

module _ (u : Unicode) where
  abbrev pub given_name_ok : Text → Bool
  given_name_ok name = is_nil name || name_ok u name

  validate_given_name-IsTest :
      (known : List Text) → IsTest (validate_given_name u known) given_name_ok
  validate_given_name-IsTest known name field = ground (arith, validate_name-IsTest u name field)

  -- The lower-case names of the steps that have a name.
  abbrev pub step_names : List CreateWorkflowStepRequest → List Text
  step_names [] = []
  step_names (s ∷ ss) =
      let rest = step_names ss in if is_nil s.name then rest else to_lower u s.name ∷ rest

module _ (u : Unicode) (known : List Text) where
  abbrev pub refs_ok : List Text → Bool
  refs_ok = all λ n. member (to_lower u n) known

  unfoldable pub sub_step_ok : CreateWorkflowSubStepRequest → Bool
  sub_step_ok s =
      given_name_ok u s.name && refs_ok (merge_workflow_components s.components s.policies)

  unfoldable pub step_ok : CreateWorkflowStepRequest → Bool
  step_ok s =
      let names = merge_workflow_components s.components s.policies in
      given_name_ok u s.name
      && is_workflow_mode s.mode
      && not (is_nil names && is_nil s.sub_steps)
      && refs_ok names
      && all sub_step_ok s.sub_steps

  references-nil :
      (field : Field) (ns : List Text)
      → is_nil (each (validate_reference u known) 0 field ns) ≡ refs_ok ns
  unfolding report
  references-nil field ns =
      each-IsTest (validate_reference u known) (λ n. member (to_lower u n) known)
        (λ n p. ground arith) 0 field ns

  validate_sub_step-IsTest : IsTest (validate_sub_step u known) sub_step_ok
  unfolding validate_sub_step sub_step_ok
  validate_sub_step-IsTest s field =
      let names = merge_workflow_components s.components s.policies in
      ground (
        arith,
        is_nil-append (validate_given_name u known s.name (field ▹ "name"))
            (each (validate_reference u known) 0 (field ▹ "components") names),
        validate_given_name-IsTest u known s.name (field ▹ "name"),
        references-nil (field ▹ "components") names,
      )

  validate_step-nil :
      (seen : Bool) (s : CreateWorkflowStepRequest) (field : Field)
      → is_nil (validate_step u known seen s field)
        ≡ (step_ok s && not (not (is_nil s.name) && seen))
  unfolding validate_step report step_ok
  validate_step-nil seen s field =
      let names = merge_workflow_components s.components s.policies in
      let refs = each (validate_reference u known) 0 (field ▹ "components") names in
      let subs = each (validate_sub_step u known) 0 (field ▹ "subSteps") s.sub_steps in
      let later =
        report (is_nil names && is_nil s.sub_steps) field workflow_step_no_component
        ++ refs
        ++ subs in
      ground (
        arith,
        is_nil-append (validate_given_name u known s.name (field ▹ "name")) (
            report (not (is_nil s.name) && seen) (field ▹ "name") duplicate_workflow_step
            ++ report (not (is_workflow_mode s.mode)) (field ▹ "mode") invalid_workflow_mode
            ++ later),
        is_nil-append refs subs,
        validate_given_name-IsTest u known s.name (field ▹ "name"),
        references-nil (field ▹ "components") names,
        each-IsTest (validate_sub_step u known) sub_step_ok validate_sub_step-IsTest 0
            (field ▹ "subSteps") s.sub_steps,
      )

  pub validate_steps-nil :
      (seen : List Text) (i : ℕ) (field : Field) (ss : List CreateWorkflowStepRequest)
      → is_nil (validate_steps u known seen i field ss)
        ≡ (all step_ok ss && distinct_from seen (step_names u ss))
  unfolding validate_steps
  validate_steps-nil seen i field [] = refl
  validate_steps-nil seen i field (s ∷ ss) =
      let here = field ++ (at i ∷ []) in
      let known_step = member (to_lower u s.name) seen in
      let rest = remember_step u known s.name seen in
      ground (
        arith,
        is_nil-append (validate_step u known known_step s here)
            (validate_steps u known rest (suc i) field ss),
        validate_step-nil known_step s here,
        validate_steps-nil rest (suc i) field ss,
      )
