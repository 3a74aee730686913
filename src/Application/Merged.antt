-- ===== src/Application/Merged.antt =====
-- The names that a workflow step refers to, from the request to the model.
use kube_min_cli.Base.{
  ◌≡◌, refl, ◌∙◌, true, not, ◌&&◌, ◌||◌, List, [], ◌∷◌, ◌++◌, Text, is_nil, member, text_eq,
  text_eq_iff, text_eq_refl, ap, if◌then◌else◌, arith, distinct, append-nil, member_same,
}
use kube_min_cli.Model.{component_names, extract_policy_names}
use kube_min_cli.Spec.{CreateWorkflowStepRequest}
use kube_min_cli.Application.References.{
  dedupe_strings, merge_workflow_components, policies_of, convert_step,
}

member-append : (k : Text) (xs ys : List Text) → member k (xs ++ ys) ≡ (member k xs || member k ys)
member-append k [] ys = refl
member-append k (x ∷ xs) ys = ground (arith, member-append k xs ys)

nil_same : (k v : Text) → text_eq k v ≡ true → is_nil k ≡ is_nil v
nil_same k v h = ground (arith, text_eq_iff k v)

member-dedupe_strings :
    (k : Text) (seen xs : List Text)
    → member k (dedupe_strings seen xs) ≡ (member k xs && not (is_nil k) && not (member k seen))
unfolding dedupe_strings
member-dedupe_strings k seen [] = refl
member-dedupe_strings k seen (v ∷ vs) = ground (
  arith,
  member-dedupe_strings k seen vs,
  member-dedupe_strings k (v ∷ seen) vs,
  nil_same v k,
  member_same v k seen,
)

-- The merged names are those of both lists but the empty one.
pub member-merge_workflow_components :
    (k : Text) (explicit policies : List Text)
    → member k (merge_workflow_components explicit policies)
      ≡ ((member k explicit || member k policies) && not (is_nil k))
unfolding merge_workflow_components
member-merge_workflow_components k explicit policies =
    member-dedupe_strings k [] (explicit ++ policies)
    ∙ ground (arith, member-append k explicit policies)

distinct-dedupe_strings : (seen xs : List Text) → distinct (dedupe_strings seen xs) ≡ true
unfolding dedupe_strings
distinct-dedupe_strings seen [] = refl
distinct-dedupe_strings seen (v ∷ vs) = ground (
  arith,
  distinct-dedupe_strings seen vs,
  distinct-dedupe_strings (v ∷ seen) vs,
  member-dedupe_strings v (v ∷ seen) vs,
  text_eq_refl v,
)

-- No name is merged twice.
pub distinct-merge_workflow_components :
    (explicit policies : List Text) → distinct (merge_workflow_components explicit policies) ≡ true
unfolding merge_workflow_components
distinct-merge_workflow_components explicit policies =
    distinct-dedupe_strings [] (explicit ++ policies)

component_names-policies_of :
    (name : Text) (names : List Text)
    → component_names name (policies_of names)
      ≡ (if is_nil names && not (is_nil name) then name ∷ [] else names)
unfolding component_names extract_policy_names
component_names-policies_of name [] = refl
component_names-policies_of name (n ∷ ns) = ap (λ ms. n ∷ ms) (append-nil ns)

-- The builder reads from a converted step the merged names, or the step's own if there are none.
pub convert_step-component_names :
    (r : CreateWorkflowStepRequest)
    → component_names (convert_step r).name (convert_step r).properties ≡ (
        let names = merge_workflow_components r.components r.policies in
        if is_nil names && not (is_nil r.name) then r.name ∷ [] else names)
unfolding component_names extract_policy_names
convert_step-component_names r =
    component_names-policies_of r.name (merge_workflow_components r.components r.policies)
