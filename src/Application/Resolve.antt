-- ===== src/Application/Resolve.antt =====
-- pkg/apiserver/domain/service/application.go: `resolveComponents`, which splits a request into
-- components of its own and components taken from templates.
use kube_min_cli.Base.{
  false, List, [], ◌∷◌, ◌++◌, Option, none, some, Text, Dict, lookup, insert, is_nil, if◌then◌else◌,
}
use kube_min_cli.Naming.{Unicode, trim_space}
use kube_min_cli.Spec.{ShareTraitSpec, traits, Traits, CreateComponentRequest}
use kube_min_cli.Application.Components.{Applications, ApplicationComponent}
use kube_min_cli.Application.Template.{
  Result, ok, failed, Override, TemplateRequest, clone_components_from_template,
}

abbrev pub share_of : Traits → Option ShareTraitSpec
share_of (traits t xs ys) = t.share

module _ (u : Unicode) where
  -- The identifier of the template, empty if there is none.
  abbrev pub template_id : CreateComponentRequest → Text
  template_id c = elim c.template [ none ↦ [] | some t ↦ trim_space u t.id ]

  abbrev pub template_target : CreateComponentRequest → Text
  template_target c = elim c.template [ none ↦ [] | some t ↦ trim_space u t.target ]

  abbrev pub first_share : Option ShareTraitSpec → Option ShareTraitSpec → Option ShareTraitSpec
  first_share none s = s
  first_share (some s) t = some s

  abbrev pub override_of : CreateComponentRequest → Override
  override_of c = record {
    name = elim (share_of c.component_traits) [ none ↦ trim_space u c.name | some s ↦ [] ];
    component_type = c.component_type;
    properties = c.properties;
    target = template_target c;
    used = false;
  }

  -- The request of a template, with one component more.
  unfoldable pub add_override :
      Text → CreateComponentRequest → Option TemplateRequest → TemplateRequest
  add_override app_name c none = record {
    base_name = trim_space u app_name;
    overrides = override_of c ∷ [];
    share = share_of c.component_traits;
  }
  add_override app_name c (some tr) = record {
    base_name = if is_nil tr.base_name then trim_space u app_name else tr.base_name;
    overrides = tr.overrides ++ (override_of c ∷ []);
    share = first_share tr.share (share_of c.component_traits);
  }

  -- The first loop: the components without a template, and the templates in the order of their first
  -- use.
  unfoldable pub split_components :
      Text
      → List CreateComponentRequest
      → Dict TemplateRequest
      → List CreateComponentRequest × Dict TemplateRequest
  unfolding add_override
  split_components app_name [] m = ([], m)
  split_components app_name (c ∷ cs) m =
      let k = template_id c in
      let plain = split_components app_name cs m in
      let taken =
        split_components app_name cs (insert k (add_override app_name c (lookup k m)) m) in
      if is_nil k then (c ∷ plain.0, plain.1) else taken

  module _ (find_app : Text → Option Applications)
      (find_components : Text → Option (List ApplicationComponent)) where
    -- The second loop, which stops at the first error.
    unfoldable pub clone_all : Text → Dict TemplateRequest → Result (List CreateComponentRequest)
    clone_all namespace [] = ok []
    clone_all namespace ((k, tr) ∷ m) =
        let rest = clone_all namespace m in
        elim (clone_components_from_template u find_app find_components namespace k tr) [
          | failed e ↦ failed e
          | ok ds ↦ elim rest [ failed e ↦ failed e | ok es ↦ ok (ds ++ es) ]
        ]

    unfoldable pub resolve_components :
        Text → Text → List CreateComponentRequest → Result (List CreateComponentRequest)
    unfolding split_components clone_all
    resolve_components namespace app_name cs =
        let s = split_components app_name cs [] in
        elim (clone_all namespace s.1) [ failed e ↦ failed e | ok ds ↦ ok (s.0 ++ ds) ]
