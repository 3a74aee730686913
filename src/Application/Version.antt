-- ===== src/Application/Version.antt =====
-- pkg/apiserver/domain/service/application.go: `UpdateVersion` and what it calls. The calls of the
-- repositories are a trace, and the parameters say which of them fail, by the component's name.
use kube_min_cli.Base.{
  ℕ, Bool, false, not, ◌&&◌, ◌||◌, List, [], ◌∷◌, ◌++◌, map, Option, none, some, Text, Dict, lookup,
  insert, delete, is_nil, text_eq, member, ◌==◌, if◌then◌else◌,
}
use kube_min_cli.Config.{step_by_step, ComponentAction, update, add, remove, parse_component_action}
use kube_min_cli.Model.{WorkflowStep}
use kube_min_cli.Naming.{Unicode, to_lower, trim_space}
use kube_min_cli.Spec.{Properties, Traits}
use kube_min_cli.Application.Components.{Applications, ApplicationComponent, merge_env}

pub record ComponentUpdateSpec : Type 0 where
  pub action : Text
  pub name : Text
  pub image : Text
  pub replicas : Option ℕ
  pub env : Dict Text
  pub component_type : Text
  pub properties : Option Properties
  pub component_traits : Option Traits

pub record UpdateVersionRequest : Type 0 where
  pub version : Text
  pub strategy : Text
  pub components : List ComponentUpdateSpec
  pub auto_exec : Option Bool
  pub description : Text

-- A call of the component repository that succeeded.
pub data StoreCall : Type 0 where
  updated_row created_row deleted_row : ApplicationComponent → StoreCall

-- `components` is the map from lower-case names, with the objects that the handler changes.
pub record Progress : Type 0 where
  pub components : Dict ApplicationComponent
  pub calls : List StoreCall
  pub updated : List Text
  pub added : List Text
  pub removed : List Text

-- `mergeComponentEnv`: without properties nothing is merged.
abbrev pub merge_component_env : Dict Text → Option Properties → Option Properties
merge_component_env env none = none
merge_component_env env (some p) =
    some (record { image = p.image; env = merge_env p.env env; secret = p.secret })

abbrev pub replicas_change : Option ℕ → ℕ → Bool
replicas_change none r = false
replicas_change (some n) r = not (n == r)

-- The component behind `updateComponent`, and whether it counts as changed.
unfoldable pub changed_component :
    ApplicationComponent → ComponentUpdateSpec → ApplicationComponent × Bool
changed_component c s =
    let new_image = not (is_nil s.image) && not (text_eq s.image c.image) in
    let new_replicas = replicas_change s.replicas c.replicas in
    let new_env = not (is_nil s.env) in
    (
      record {
        name = c.name;
        app_id = c.app_id;
        namespace = c.namespace;
        image = if new_image then s.image else c.image;
        replicas = elim s.replicas [ none ↦ c.replicas | some n ↦ n ];
        component_type = c.component_type;
        properties = if new_env then merge_component_env s.env c.properties else c.properties;
        component_traits = c.component_traits;
      },
      new_image || new_replicas || new_env,
    )

unfoldable pub added_component : Applications → ComponentUpdateSpec → ApplicationComponent
added_component app s = record {
  name = s.name;
  app_id = app.id;
  namespace = app.namespace;
  image = s.image;
  replicas = elim s.replicas [ none ↦ 1 | some n ↦ n ];
  component_type = s.component_type;
  properties = s.properties;
  component_traits = s.component_traits;
}

module _ (u : Unicode) where
  -- `compName`
  abbrev pub component_key : Text → Text
  component_key name = to_lower u (trim_space u name)

  module _ (update_fails create_fails delete_fails : Text → Bool) (app : Applications) where
    abbrev pub step_update : ComponentUpdateSpec → ApplicationComponent → Progress → Progress
    step_update s c p =
        let after = changed_component c s in
        let written = after.1 && not (update_fails c.name) in
        record {
          components = insert (component_key s.name) after.0 p.components;
          calls = if written then p.calls ++ (updated_row after.0 ∷ []) else p.calls;
          updated = if written then p.updated ++ (s.name ∷ []) else p.updated;
          added = p.added;
          removed = p.removed;
        }

    -- The map does not learn of the component.
    abbrev pub step_add : ComponentUpdateSpec → Progress → Progress
    step_add s p = record {
      components = p.components;
      calls = p.calls ++ (created_row (added_component app s) ∷ []);
      updated = p.updated;
      added = p.added ++ (s.name ∷ []);
      removed = p.removed;
    }

    abbrev pub step_remove : ComponentUpdateSpec → ApplicationComponent → Progress → Progress
    step_remove s c p = record {
      components = delete (component_key s.name) p.components;
      calls = p.calls ++ (deleted_row c ∷ []);
      updated = p.updated;
      added = p.added;
      removed = p.removed ++ (s.name ∷ []);
    }

    -- One round of the loop; none is `ErrVersionUpdateFailed`.
    unfoldable pub apply_action :
        ComponentAction
        → ComponentUpdateSpec
        → Option ApplicationComponent
        → Progress
        → Option Progress
    apply_action update s none p = some p
    apply_action update s (some c) p = some (step_update s c p)
    apply_action add s none p = if create_fails s.name then none else some (step_add s p)
    apply_action add s (some c) p = some p
    apply_action remove s none p = some p
    apply_action remove s (some c) p =
        if delete_fails c.name then none else some (step_remove s c p)

    unfoldable pub apply_spec : ComponentUpdateSpec → Progress → Option Progress
    apply_spec s p =
        apply_action (parse_component_action s.action) s
          (lookup (component_key s.name) p.components) p

    unfoldable pub apply_specs : List ComponentUpdateSpec → Progress → Option Progress
    apply_specs [] p = some p
    apply_specs (s ∷ ss) p = elim (apply_spec s p) [ none ↦ none | some q ↦ apply_specs ss q ]

  -- `componentMap`; the last component of a name counts.
  abbrev pub index_components :
      Dict ApplicationComponent → List ApplicationComponent → Dict ApplicationComponent
  index_components m [] = m
  index_components m (c ∷ cs) = index_components (insert (to_lower u c.name) c m) cs

  abbrev pub start : List ApplicationComponent → Progress
  start cs = record {
    components = index_components [] cs;
    calls = [];
    updated = [];
    added = [];
    removed = [];
  }

  -- `removedSet` and the loop over the steps.
  abbrev pub filter_steps : List Text → List WorkflowStep → List WorkflowStep
  filter_steps gone [] = []
  filter_steps gone (s ∷ ss) =
      let rest = filter_steps gone ss in if member (to_lower u s.name) gone then rest else s ∷ rest

  abbrev pub new_step : Text → WorkflowStep
  new_step name = record {
    name = name;
    mode = step_by_step;
    properties = (name ∷ []) ∷ [];
    sub_steps = [];
  }

  -- `syncWorkflowSteps` on the steps of the first workflow.
  unfoldable pub sync_workflow_steps : List Text → List Text → List WorkflowStep → List WorkflowStep
  sync_workflow_steps added removed steps =
      filter_steps (map (to_lower u) removed) steps ++ map new_step added
