-- ===== src/Validation/Requests.antt =====
-- The rules for a request: which applications and which workflows are accepted.
use kube_min_cli.Base.{
  ℕ, suc, ◌≡◌, refl, Bool, false, not, ◌&&◌, ◌||◌, List, [], ◌∷◌, ◌++◌, Text, is_nil, all, member,
  arith, distinct_from, member_remember,
}
use kube_min_cli.Naming.{Unicode, to_lower}
use kube_min_cli.Spec.{CreateComponentRequest}
use kube_min_cli.Validation.{
  needs_image, is_component_type, remember_component, validate_component, validate_components,
}
use kube_min_cli.Validation.Errors.{
  at, Field, ◌▹◌, report, duplicate_component, invalid_component_type, missing_image,
}
use kube_min_cli.Validation.Accept.{is_nil-append}
use kube_min_cli.Validation.Names.{validate_name}
use kube_min_cli.Validation.Traits.{validate_traits}
use kube_min_cli.Validation.Rules.{traits_ok}
use kube_min_cli.Validation.Nesting.{validate_traits-IsTest}
use kube_min_cli.Validation.Label.{name_ok, validate_name-IsTest}

module _ (u : Unicode) where
  unfoldable pub component_ok : CreateComponentRequest → Bool
  component_ok c =
      name_ok u c.name
      && is_component_type c.component_type
      && not (needs_image c.component_type && is_nil c.image)
      && traits_ok c.component_traits

  abbrev pub lower_names : List CreateComponentRequest → List Text
  lower_names [] = []
  lower_names (c ∷ cs) = to_lower u c.name ∷ lower_names cs

  validate_component-nil :
      (known : Bool) (c : CreateComponentRequest) (field : Field)
      → is_nil (validate_component u known c field) ≡ (component_ok c && not known)
  unfolding validate_component report component_ok
  validate_component-nil known c field = ground (
    arith,
    validate_name-IsTest u c.name (field ▹ "name"),
    validate_traits-IsTest c.component_traits (field ▹ "traits"),
    is_nil-append (validate_name u c.name (field ▹ "name")) (
        report known (field ▹ "name") duplicate_component
        ++ report (not (is_component_type c.component_type)) (field ▹ "type") invalid_component_type
        ++ report (needs_image c.component_type && is_nil c.image) (field ▹ "image") missing_image
        ++ validate_traits false c.component_traits (field ▹ "traits")),
  )

  pub validate_components-nil :
      (names : List Text) (i : ℕ) (field : Field) (cs : List CreateComponentRequest)
      → is_nil (validate_components u names i field cs).0
        ≡ (all component_ok cs && distinct_from names (lower_names cs))
  unfolding validate_components
  validate_components-nil names i field [] = refl
  validate_components-nil names i field (c ∷ cs) =
      let here = field ++ (at i ∷ []) in
      let known = member (to_lower u c.name) names in
      let rest = remember_component u c.name names in
      ground (
        arith,
        is_nil-append (validate_component u known c here)
            (validate_components u rest (suc i) field cs).0,
        validate_component-nil known c here,
        validate_components-nil rest (suc i) field cs,
      )

  -- The names that the loop leaves are those it began with and those of the components.
  pub member-validate_components :
      (k : Text) (names : List Text) (i : ℕ) (field : Field) (cs : List CreateComponentRequest)
      → member k (validate_components u names i field cs).1
        ≡ (member k names || member k (lower_names cs))
  unfolding validate_components
  member-validate_components k names i field [] = ground arith
  member-validate_components k names i field (c ∷ cs) =
      let rest = remember_component u c.name names in
      ground (
        arith,
        member-validate_components k rest (suc i) field cs,
        member_remember k (to_lower u c.name) names,
      )
