-- ===== src/Tracker.antt =====
-- pkg/apiserver/event/workflow/job/cleanup_tracker.go: the resources that a job touched, and which of
-- them it created. A context without a tracker is `none`.
pub mod Record
pub mod Tests
use kube_min_cli.Base.{
  Bool, true, false, ◌&&◌, ◌||◌, Option, some, none, List, [], ◌∷◌, ◌++◌, Text, text_eq, any,
  if◌then◌else◌, ite,
}
use kube_min_cli.Config.{ResourceKind, ResourceKind-discrete, any_resource}

pub record ResourceRef : Type 0 where
  pub kind : ResourceKind
  pub namespace : Text
  pub name : Text
  pub created : Bool

unfoldable pub same_kind : ResourceKind → ResourceKind → Bool
same_kind a b = ite (ResourceKind-discrete a b) true false

-- `existing.Kind == ref.Kind && existing.Namespace == ref.Namespace && existing.Name == ref.Name`
unfoldable pub same_resource : ResourceRef → ResourceRef → Bool
unfolding same_kind
same_resource existing ref =
    same_kind existing.kind ref.kind
    && text_eq existing.namespace ref.namespace
    && text_eq existing.name ref.name

unfoldable pub add : ResourceRef → List ResourceRef → List ResourceRef
add ref resources =
    if any (λ existing. same_resource existing ref) resources
    then resources
    else resources ++ (ref ∷ [])

-- `list`; `any_resource` is the empty kind.
unfoldable pub list_kind : ResourceKind → List ResourceRef → List ResourceRef
unfolding same_kind
list_kind kind [] = []
list_kind kind (r ∷ rs) =
    let rest = list_kind kind rs in
    if same_kind kind any_resource || same_kind r.kind kind then r ∷ rest else rest

-- A context with a tracker keeps it.
unfoldable pub with_cleanup_tracker : Option (List ResourceRef) → Option (List ResourceRef)
with_cleanup_tracker none = some []
with_cleanup_tracker (some resources) = some resources

unfoldable pub mark_resource :
    Bool → ResourceKind → Text → Text → Option (List ResourceRef) → Option (List ResourceRef)
unfolding add
mark_resource created kind namespace name none = none
mark_resource created kind namespace name (some resources) =
    some (
      add (record { kind = kind; namespace = namespace; name = name; created = created }) resources)

unfoldable pub resources_for_cleanup : ResourceKind → Option (List ResourceRef) → List ResourceRef
unfolding list_kind
resources_for_cleanup kind none = []
resources_for_cleanup kind (some resources) = list_kind kind resources

-- A sequence of records.
unfoldable pub add_all : List ResourceRef → List ResourceRef → List ResourceRef
unfolding add
add_all [] resources = resources
add_all (r ∷ rs) resources = add_all rs (add r resources)
