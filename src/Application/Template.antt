-- ===== src/Application/Template.antt =====
-- pkg/apiserver/domain/service/application.go: components that a request takes from a template
-- application. The repositories are parameters: the application of an identifier, none if there is
-- none, and the components of an application, none if the call fails.
use kube_min_cli.Base.{
  Bool, true, false, not, ◌&&◌, ◌||◌, List, [], ◌∷◌, ◌++◌, map, Option, none, some, Text, text,
  Dict, insert, is_nil, text_eq, if◌then◌else◌,
}
use kube_min_cli.Naming.{Unicode, dash, trim_space}
use kube_min_cli.Spec.{
  Properties, ShareTraitSpec, Traits, traits, no_inits, no_sidecars, CreateComponentRequest,
}
use kube_min_cli.Application.Components.{
  Applications, ApplicationComponent, apply_property_overrides,
}
use kube_min_cli.Application.Rewrite.{last_segment, Renaming, rewrite_traits}

pub data TemplateError : Type 0 where
  template_id_missing application_not_exist template_not_enabled repository_error
        template_component_missing template_target_not_found :
      TemplateError

pub data Result {ℓ} (A : Type ℓ) : Type ℓ where
  ok : A → Result A
  failed : TemplateError → Result A

-- `ovState`, the override with its mark.
pub record Override : Type 0 where
  pub name : Text
  pub component_type : Text
  pub properties : Properties
  pub target : Text
  pub used : Bool

pub record TemplateRequest : Type 0 where
  pub base_name : Text
  pub overrides : List Override
  pub share : Option ShareTraitSpec

abbrev mark_used : Override → Override
mark_used o = record {
  name = o.name;
  component_type = o.component_type;
  properties = o.properties;
  target = o.target;
  used = true;
}

-- What a loop over the overrides finds: one of them with the list behind it, an override of another
-- type, or none.
pub data Pick : Type 0 where
  picked : Override → List Override → Pick
  mismatch : Pick
  absent : Pick

abbrev pub behind : Override → Pick → Pick
behind o (picked p os) = picked p (o ∷ os)
behind o mismatch = mismatch
behind o absent = absent

abbrev pub other_type : Override → Text → Bool
other_type o job_type = not (is_nil o.component_type) && not (text_eq o.component_type job_type)

unfoldable pub pick_target : Text → Text → List Override → Pick
pick_target template_name job_type [] = absent
pick_target template_name job_type (o ∷ os) =
    let rest = pick_target template_name job_type os in
    if not o.used && not (is_nil o.target) && text_eq o.target template_name
    then (if other_type o job_type then mismatch else picked o (mark_used o ∷ os))
    else behind o rest

unfoldable pub pick_any : Text → List Override → Pick
pick_any job_type [] = absent
pick_any job_type (o ∷ os) =
    let rest = pick_any job_type os in
    if not o.used && not (other_type o job_type) then picked o (mark_used o ∷ os) else behind o rest

unfoldable pub pick_override : Text → Text → List Override → Pick
unfolding pick_target pick_any
pick_override template_name job_type os = elim (pick_target template_name job_type os) [
  | picked o rest ↦ picked o rest
  | mismatch ↦ mismatch
  | absent ↦ pick_any job_type os
]

abbrev pub empty_properties : Properties
empty_properties = record { image = []; env = []; secret = [] }

abbrev pub empty_traits : Traits
empty_traits =
    traits
      (record {
        storage = [];
        ingress = [];
        rbac = [];
        env_from = [];
        envs = [];
        probes = [];
        resources = none;
        share = none;
      })
      no_inits no_sidecars

pub record ComponentPlan : Type 0 where
  pub template_component : ApplicationComponent
  pub target_name : Text
  pub override : Properties

-- `overrides`, `nameMap` and `plans` of the loop.
pub record Plans : Type 0 where
  pub overrides : List Override
  pub names : Dict Text
  pub plans : List ComponentPlan

-- A component keeps its name when it is shared.
abbrev pub target_name_of : Bool → Text → Option Override → Text → Text
target_name_of shared base_name override name =
    let derived = if is_nil base_name then name else base_name ++ (dash ∷ last_segment name) in
    if shared
    then name
    else elim override [ none ↦ derived | some o ↦ if is_nil o.name then derived else o.name ]

abbrev pub new_plan : Bool → Text → ApplicationComponent → Option Override → ComponentPlan
new_plan shared base_name c override = record {
  template_component = c;
  target_name = target_name_of shared base_name override c.name;
  override = elim override [ none ↦ empty_properties | some o ↦ o.properties ];
}

abbrev pub add_plan :
    Bool → Text → ApplicationComponent → Option Override → List Override → Plans → Plans
add_plan shared base_name c override rest p =
    let plan = new_plan shared base_name c override in
    record {
      overrides = rest;
      names =
          insert (text "tem-" ++ c.name) plan.target_name (insert c.name plan.target_name p.names);
      plans = p.plans ++ (plan ∷ []);
    }

unfoldable pub plan_components : Bool → Text → List ApplicationComponent → Plans → Result Plans
unfolding pick_override
plan_components shared base_name [] p = ok p
plan_components shared base_name (c ∷ cs) p =
    elim (pick_override c.name c.component_type p.overrides) [
      | picked o rest ↦
          plan_components shared base_name cs (add_plan shared base_name c (some o) rest p)
      | mismatch ↦ failed template_target_not_found
      | absent ↦
          plan_components shared base_name cs (add_plan shared base_name c none p.overrides p)
    ]

abbrev pub set_share : Option ShareTraitSpec → Traits → Traits
set_share none t = t
set_share (some s) (traits t xs ys) =
    traits
      (record {
        storage = t.storage;
        ingress = t.ingress;
        rbac = t.rbac;
        env_from = t.env_from;
        envs = t.envs;
        probes = t.probes;
        resources = t.resources;
        share = some s;
      })
      xs ys

-- An override with a target that no component took.
unfoldable pub has_unused_target : List Override → Bool
has_unused_target [] = false
has_unused_target (o ∷ os) = (not o.used && not (is_nil o.target)) || has_unused_target os

module _ (u : Unicode) where
  -- `convertComponentFromTemplate`
  unfoldable pub convert_component_from_template :
      Text → Text → Dict Text → Option ShareTraitSpec → ComponentPlan → CreateComponentRequest
  convert_component_from_template base_name namespace names share plan =
      let c = plan.template_component in
      let properties = elim c.properties as (λ _. Properties) [
        | none ↦ empty_properties
        | some p ↦ p
      ] in
      let own = elim c.component_traits as (λ _. Traits) [ none ↦ empty_traits | some t ↦ t ] in
      let renaming : Renaming = record {
        old_name = c.name;
        new_name = plan.target_name;
        base_name = base_name;
        namespace = namespace;
        names = names;
      } in
      record {
        name = plan.target_name;
        component_type = c.component_type;
        image = c.image;
        namespace = namespace;
        replicas = c.replicas;
        properties = apply_property_overrides properties plan.override c.component_type;
        component_traits = rewrite_traits u renaming (set_share share own);
        template = none;
      }

  unfoldable pub clone_components :
      Text
      → Applications
      → List ApplicationComponent
      → TemplateRequest
      → Result (List CreateComponentRequest)
  unfolding plan_components convert_component_from_template has_unused_target
  clone_components namespace app components tr =
      let shared : Bool = elim tr.share [ none ↦ false | some s ↦ true ] in
      let trimmed = trim_space u tr.base_name in
      let base_name = if shared then [] else if is_nil trimmed then app.name else trimmed in
      elim (plan_components shared base_name components
        (record { overrides = tr.overrides; names = []; plans = [] })) [
          | failed e ↦ failed e
          | ok p ↦
              if has_unused_target p.overrides
              then failed template_target_not_found
              else ok (
                  map (convert_component_from_template base_name namespace p.names tr.share)
                    p.plans)
        ]

  module _ (find_app : Text → Option Applications)
      (find_components : Text → Option (List ApplicationComponent)) where
    -- `cloneComponentsFromTemplate`
    unfoldable pub clone_components_from_template :
        Text → Text → TemplateRequest → Result (List CreateComponentRequest)
    unfolding clone_components
    clone_components_from_template namespace template_id tr =
        if is_nil template_id then failed template_id_missing else elim (find_app template_id) [
          | none ↦ failed application_not_exist
          | some app ↦
              if not app.tmp_enable
              then failed template_not_enabled
              else elim (find_components app.id) [
                | none ↦ failed repository_error
                | some [] ↦ failed template_component_missing
                | some (c ∷ cs) ↦ clone_components namespace app (c ∷ cs) tr
              ]
        ]
