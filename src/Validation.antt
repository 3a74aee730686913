-- ===== src/Validation.antt =====
-- pkg/apiserver/domain/service/validation.go: what a request must satisfy, decided without creating
-- anything. A validator answers the list of its errors, and a request is valid if the list is empty.
pub mod Errors
pub mod Names
pub mod Traits
pub mod Workflow
pub mod Accept
pub mod Label
pub mod Rules
pub mod Nesting
pub mod Requests
pub mod Steps
pub mod Accepted
pub mod Quantity
pub mod Tests
use kube_min_cli.Base.{
  ℕ, suc, Bool, true, false, not, ◌&&◌, ◌||◌, List, [], ◌∷◌, ◌++◌, map, Option, none, some, Text,
  text, text_eq, is_nil, member, if◌then◌else◌,
}
use kube_min_cli.Naming.{Unicode, to_lower}
use kube_min_cli.Spec.{CreateComponentRequest, CreateApplicationsRequest, TryWorkflowRequest}
use kube_min_cli.Validation.Errors.{
  named, at, Field, ◌▹◌, ErrorList, report, duplicate_component, invalid_component_type,
  missing_image, missing_required_field,
}
use kube_min_cli.Validation.Names.{validate_name}
use kube_min_cli.Validation.Traits.{validate_traits}
use kube_min_cli.Validation.Workflow.{validate_workflow_steps}

-- `validComponentTypes`, and the types that need an image.
abbrev pub needs_image : Text → Bool
needs_image t = text_eq t (text "webservice") || text_eq t (text "store")

abbrev pub is_component_type : Text → Bool
is_component_type t = needs_image t || text_eq t (text "config") || text_eq t (text "secret")

-- The answer, `TryApplicationResponse` and `TryWorkflowResponse`.
pub record Response : Type 0 where
  pub valid : Bool
  pub errors : ErrorList

abbrev pub respond : ErrorList → Response
respond es = record { valid = is_nil es; errors = es }

module _ (u : Unicode) where
  -- `known` says whether an earlier component has the name.
  unfoldable pub validate_component : Bool → CreateComponentRequest → Field → ErrorList
  validate_component known c field =
      validate_name u c.name (field ▹ "name")
      ++ report known (field ▹ "name") duplicate_component
      ++ report (not (is_component_type c.component_type)) (field ▹ "type") invalid_component_type
      ++ report (needs_image c.component_type && is_nil c.image) (field ▹ "image") missing_image
      ++ validate_traits false c.component_traits (field ▹ "traits")

  -- `componentNames` behind a component.
  abbrev pub remember_component : Text → List Text → List Text
  remember_component name names =
      if member (to_lower u name) names then names else to_lower u name ∷ names

  -- The loop over the components: the errors, and the lower-case names behind it.
  unfoldable pub validate_components :
      List Text → ℕ → Field → List CreateComponentRequest → ErrorList × List Text
  unfolding validate_component
  validate_components names i field [] = ([], names)
  validate_components names i field (c ∷ cs) =
      let rest = validate_components (remember_component c.name names) (suc i) field cs in
      (
        validate_component (member (to_lower u c.name) names) c (field ++ (at i ∷ [])) ++ rest.0,
        rest.1,
      )

  unfoldable pub try_application : CreateApplicationsRequest → Response
  unfolding validate_components validate_workflow_steps
  try_application req =
      let c = validate_components [] 0 ([] ▹ "component") req.component in
      respond (
        validate_name u req.name ([] ▹ "name")
        ++ c.0
        ++ validate_workflow_steps u c.1 req.workflow_steps ([] ▹ "workflow"))

  -- The components of the repository: none is an error, which the code passes over.
  abbrev pub stored_names : Text → Option (List Text) → List Text
  stored_names app_id none = []
  stored_names app_id (some names) = if is_nil app_id then [] else map (to_lower u) names

  unfoldable pub try_workflow : Option (List Text) → Text → TryWorkflowRequest → Response
  unfolding validate_workflow_steps
  try_workflow stored app_id req = respond (
      (if is_nil req.name then [] else validate_name u req.name ([] ▹ "name"))
      ++ (if is_nil req.workflow
          then report true ([] ▹ "workflow") missing_required_field
          else validate_workflow_steps u (stored_names app_id stored) req.workflow
              ([] ▹ "workflow")))
