-- ===== src/Application/Overrides.antt =====
-- How overrides are handed out, and what the components taken from a template are called.
use kube_min_cli.Base.{
  ℕ, suc, ◌≡◌, refl, sym, ap, ◌∙◌, subst, Bool, true, false, not, ◌&&◌, List, [], ◌∷◌, ◌++◌, map,
  Option, none, some, Text, Dict, text_eq, text_eq_iff, text_eq_refl, is_nil, length, append-nil,
  append_assoc, if◌then◌else◌, arith, Bool-cases, inl, inr, all,
}
use kube_min_cli.Naming.{Unicode}
use kube_min_cli.Spec.{ShareTraitSpec, CreateComponentRequest}
use kube_min_cli.Application.Components.{Applications, ApplicationComponent}
use kube_min_cli.Application.Template.{
  template_target_not_found, Result, ok, failed, Override, TemplateRequest, Pick, picked, mismatch,
  absent, behind, other_type, pick_target, pick_any, pick_override, ComponentPlan, Plans, new_plan,
  add_plan, plan_components, convert_component_from_template, has_unused_target, clone_components,
}

abbrev pub unused : List Override → ℕ
unused [] = 0
unused (o ∷ os) = let rest = unused os in if o.used then rest else suc rest

-- What is picked was not used before, has the type of the component or none, and is the only one
-- that is marked.
abbrev pub IsFair : Text → List Override → Pick → Type 0
IsFair job_type os (picked o rest) =
    (o.used ≡ false)
    × (other_type o job_type ≡ false)
    × (unused os ≡ suc (unused rest))
    × (length rest ≡ length os)
IsFair job_type os mismatch = Unit
IsFair job_type os absent = Unit

behind-IsFair :
    (t : Text) (o : Override) (os : List Override) (p : Pick)
    → IsFair t os p
    → IsFair t (o ∷ os) (behind o p)
behind-IsFair t o os (picked q rest) h = (h.0, h.1, ground (arith, h.2), omega (arith, h.3))
behind-IsFair t o os mismatch h = tt
behind-IsFair t o os absent h = tt

pick_any-IsFair : (t : Text) (os : List Override) → IsFair t os (pick_any t os)
unfolding pick_any
pick_any-IsFair t [] = tt
pick_any-IsFair t (o ∷ os) = elim (Bool-cases (not o.used && not (other_type o t))) [
  | inl h ↦ rw (h, IsFair) (ground arith, ground arith, ground arith, refl)
  | inr h ↦ rw (h, IsFair) (behind-IsFair t o os (pick_any t os) (pick_any-IsFair t os))
]

pick_target-IsFair : (n t : Text) (os : List Override) → IsFair t os (pick_target n t os)
unfolding pick_target
pick_target-IsFair n t [] = tt
pick_target-IsFair n t (o ∷ os) =
    elim (Bool-cases (not o.used && not (is_nil o.target) && text_eq o.target n)) [
      | inl h ↦ elim (Bool-cases (other_type o t)) [
        | inl m ↦ rw (h, m, IsFair) tt
        | inr m ↦ rw (h, m, IsFair) (ground arith, m, ground arith, refl)
      ]
      | inr h ↦
          rw (h, IsFair) (behind-IsFair t o os (pick_target n t os) (pick_target-IsFair n t os))
    ]

-- An override that a component of a template takes was free, fits its type, and is the only one that
-- is taken.
pub pick_override-IsFair : (n t : Text) (os : List Override) → IsFair t os (pick_override n t os)
unfolding pick_override
pick_override-IsFair n t os = fair (pick_target n t os) (pick_target-IsFair n t os)
  where
    fair :
        (p : Pick)
        → IsFair t os p
        → IsFair t os (elim p [
          | picked o rest ↦ picked o rest
          | mismatch ↦ mismatch
          | absent ↦ pick_any t os
        ])
    fair (picked o rest) h = h
    fair mismatch h = tt
    fair absent h = pick_any-IsFair t os

-- The plans behind the loop: one more for each component, in order.
abbrev template_names : List ComponentPlan → List Text
template_names ps = map (λ (p : ComponentPlan). p.template_component.name) ps

abbrev component_names_of : List ApplicationComponent → List Text
component_names_of cs = map (λ (c : ApplicationComponent). c.name) cs

abbrev keeps_name : ComponentPlan → Bool
keeps_name p = text_eq p.target_name p.template_component.name

abbrev Planned : Bool → List ApplicationComponent → Plans → Result Plans → Type 0
Planned shared cs p (failed e) = Unit
Planned shared cs p (ok q) =
    (template_names q.plans ≡ template_names p.plans ++ component_names_of cs)
    × (shared ≡ true → all keeps_name p.plans ≡ true → all keeps_name q.plans ≡ true)

map_snoc :
    (ps : List ComponentPlan) (p : ComponentPlan)
    → template_names (ps ++ (p ∷ [])) ≡ template_names ps ++ (p.template_component.name ∷ [])
map_snoc [] p = refl
map_snoc (q ∷ qs) p = ap (λ ns. q.template_component.name ∷ ns) (map_snoc qs p)

all_snoc :
    (ps : List ComponentPlan) (p : ComponentPlan)
    → all keeps_name (ps ++ (p ∷ [])) ≡ (all keeps_name ps && keeps_name p)
all_snoc [] p = ground arith
all_snoc (q ∷ qs) p = ground (arith, all_snoc qs p)

shared_keeps :
    (shared : Bool) (base : Text) (c : ApplicationComponent) (o : Option Override)
    → shared ≡ true
    → keeps_name (new_plan shared base c o) ≡ true
shared_keeps true base c o s = text_eq_refl c.name
shared_keeps false base c o s = absurd (ground arith)

-- One component more.
add_plan-Planned :
    (shared : Bool) (base : Text) (c : ApplicationComponent) (cs : List ApplicationComponent)
    (o : Option Override) (rest : List Override) (p : Plans) (r : Result Plans)
    → Planned shared cs (add_plan shared base c o rest p) r
    → Planned shared (c ∷ cs) p r
add_plan-Planned shared base c cs o rest p (failed e) h = tt
add_plan-Planned shared base c cs o rest p (ok q) h =
    let n = new_plan shared base c o in
    (
      h.0
          ∙ ap (λ ns. ns ++ component_names_of cs) (map_snoc p.plans n)
          ∙ append_assoc (template_names p.plans) (c.name ∷ []) (component_names_of cs),
      λ s k. h.1 s (all_snoc p.plans n ∙ ground (arith, shared_keeps shared base c o s)),
    )

plan_components-Planned :
    (shared : Bool) (base : Text) (cs : List ApplicationComponent) (p : Plans)
    → Planned shared cs p (plan_components shared base cs p)
unfolding plan_components
plan_components-Planned shared base [] p = (sym (append-nil (template_names p.plans)), λ s h. h)
plan_components-Planned shared base (c ∷ cs) p =
    elim (pick_override c.name c.component_type p.overrides)
      as (λ k. Planned shared (c ∷ cs) p (elim k [
        | picked o rest ↦ plan_components shared base cs (add_plan shared base c (some o) rest p)
        | mismatch ↦ failed template_target_not_found
        | absent ↦ plan_components shared base cs (add_plan shared base c none p.overrides p)
      ])) [
        | picked o rest ↦
            let q = add_plan shared base c (some o) rest p in
            add_plan-Planned shared base c cs (some o) rest p (plan_components shared base cs q)
              (plan_components-Planned shared base cs q)
        | mismatch ↦ tt
        | absent ↦
            let q = add_plan shared base c none p.overrides p in
            add_plan-Planned shared base c cs none p.overrides p (plan_components shared base cs q)
              (plan_components-Planned shared base cs q)
      ]

module _ (u : Unicode) where
  abbrev clone_names : List CreateComponentRequest → List Text
  clone_names ds = map (λ (d : CreateComponentRequest). d.name) ds

  -- A plan that keeps the name makes a component with the name.
  kept_names :
      (base namespace : Text) (names : Dict Text) (share : Option ShareTraitSpec)
      (ps : List ComponentPlan)
      → all keeps_name ps ≡ true
      → clone_names (map (convert_component_from_template u base namespace names share) ps)
        ≡ template_names ps
  unfolding convert_component_from_template
  kept_names base namespace names share [] h = refl
  kept_names base namespace names share (p ∷ ps) h =
      let here : keeps_name p ≡ true = ground arith in
      let rest = kept_names base namespace names share ps (ground arith) in
      ap
        (λ n.
          n ∷ clone_names (map (convert_component_from_template u base namespace names share) ps))
        (((text_eq_iff p.target_name p.template_component.name).0) here)
      ∙ ap (λ ns. p.template_component.name ∷ ns) rest

  abbrev shared_request : Text → List Override → ShareTraitSpec → TemplateRequest
  shared_request base overrides s = record {
    base_name = base;
    overrides = overrides;
    share = some s;
  }

  abbrev Named : List ApplicationComponent → Result (List CreateComponentRequest) → Type 0
  Named cs (failed e) = Unit
  Named cs (ok ds) = clone_names ds ≡ component_names_of cs

  clone_components-Named :
      (namespace base : Text) (app : Applications) (cs : List ApplicationComponent)
      (os : List Override) (s : ShareTraitSpec)
      → Named cs (clone_components u namespace app cs (shared_request base os s))
  unfolding clone_components
  clone_components-Named namespace base app cs os s =
      named (plan_components true [] cs (record { overrides = os; names = []; plans = [] }))
        (plan_components-Planned true [] cs (record { overrides = os; names = []; plans = [] }))
    where
      named :
          (r : Result Plans)
          → Planned true cs (record { overrides = os; names = []; plans = [] }) r
          → Named cs (elim r [
            | failed e ↦ failed e
            | ok p ↦
                if has_unused_target p.overrides
                then failed template_target_not_found
                else ok
                    (map (convert_component_from_template u [] namespace p.names (some s)) p.plans)
          ])
      named (failed e) h = tt
      named (ok p) h = elim (Bool-cases (has_unused_target p.overrides)) [
        | inl b ↦ rw (b, Named) tt
        | inr b ↦
            rw (b, Named) (kept_names [] namespace p.names (some s) p.plans (h.1 refl refl) ∙ h.0)
      ]

  -- The components taken from a template that is shared are those of the template, in order and
  -- under the same names, whatever the overrides say.
  pub clone_components-shared :
      (namespace base : Text) (app : Applications) (cs : List ApplicationComponent)
      (os : List Override) (s : ShareTraitSpec) (ds : List CreateComponentRequest)
      → clone_components u namespace app cs
          (record { base_name = base; overrides = os; share = some s })
        ≡ ok ds
      → map (λ (d : CreateComponentRequest). d.name) ds
        ≡ map (λ (c : ApplicationComponent). c.name) cs
  clone_components-shared namespace base app cs os s ds e =
      subst (Named cs) e (clone_components-Named namespace base app cs os s)
