-- ===== src/Application/Cleanup.antt =====
-- pkg/apiserver/domain/service/application.go: deleting what an application has in the cluster. The
-- delete call of the client is a parameter: for the number of the call, from 0 on, and the resource it
-- answers an error, none if the call succeeded. An error is told apart only as far as the code does:
-- whether the object was missing. Its text is what it prints as.
use kube_min_cli.Base.{
  ℕ, suc, Bool, true, false, List, [], ◌∷◌, ◌++◌, Option, none, some, Text, text, is_nil, length,
  if◌then◌else◌,
}

-- The kinds that are deleted.
pub data Kind : Type 0 where
  deployment stateful_set service config_map secret persistent_volume_claim ingress service_account
        role role_binding cluster_role cluster_role_binding :
      Kind

abbrev pub is_cluster_kind : Kind → Bool
is_cluster_kind cluster_role = true
is_cluster_kind cluster_role_binding = true
is_cluster_kind _ = false

-- `formatResource` joins these three into one text.
pub record Resource : Type 0 where
  pub kind : Kind
  pub namespace : Text
  pub name : Text

-- An error of the client: `IsNotFound`, or another one.
pub data ClientError : Type 0 where
  not_found : ClientError
  other_error : Text → ClientError

abbrev pub default_namespace : Text
default_namespace = text "default"

unfoldable pub pick_namespace : Text → Text → Text
pick_namespace candidate fallback =
    if is_nil candidate
    then (if is_nil fallback then default_namespace else fallback)
    else candidate

pub record CleanupReporter : Type 0 where
  pub deleted_resources : List Resource
  -- "<resource> (<error>)"
  pub failed_resources : List (Resource × ClientError)
  pub errs : List ClientError

abbrev pub new_cleanup_reporter : CleanupReporter
new_cleanup_reporter = record { deleted_resources = []; failed_resources = []; errs = [] }

unfoldable pub record_result : CleanupReporter → Resource → Option ClientError → CleanupReporter
record_result r target result = if is_nil target.name then r else elim result [
  | none ↦ record {
    deleted_resources = r.deleted_resources ++ (target ∷ []);
    failed_resources = r.failed_resources;
    errs = r.errs;
  }
  | some e ↦ record {
    deleted_resources = r.deleted_resources;
    failed_resources = r.failed_resources ++ ((target, e) ∷ []);
    errs = r.errs ++ (e ∷ []);
  }
]

-- `err()`: none, the only error, or the number of errors with the first one.
pub data CleanupError : Type 0 where
  single : ClientError → CleanupError
  several : ℕ → ClientError → CleanupError

unfoldable pub reporter_err : CleanupReporter → Option CleanupError
reporter_err r = elim r.errs [
  | [] ↦ none
  | e ∷ es ↦ if is_nil es then some (single e) else some (several (suc (length es)) e)
]

-- `deleteNamespaced` and `deleteCluster`: a missing object is no error.
abbrev pub ignore_not_found : Option ClientError → Option ClientError
ignore_not_found none = none
ignore_not_found (some not_found) = none
ignore_not_found (some (other_error t)) = some (other_error t)

-- An object of the cluster that a component has beside its workload; `unsupported` is any other type.
pub data ClientObject : Type 0 where
  object : Kind → Text → Text → ClientObject
  unsupported : ClientObject

abbrev pub object_resource : Text → Kind → Text → Text → Resource
object_resource fallback kind namespace name = record {
  kind = kind;
  namespace = if is_cluster_kind kind then [] else pick_namespace namespace fallback;
  name = name;
}

-- What the generators of pkg/apiserver/event/workflow/job answer for a component: the workload and
-- its objects, and the service if the component has ports.
pub record Generated : Type 0 where
  pub component_namespace : Text
  pub additional_objects : List ClientObject
  pub workload : Option Resource
  pub component_service : Option Resource

-- The reporter, and the number of calls of the client so far.
pub record Cleaning : Type 0 where
  pub calls : ℕ
  pub reporter : CleanupReporter

-- The resource that the client is called for.
abbrev pub addressed : Resource → Resource
addressed target = record {
  kind = target.kind;
  namespace =
      if is_cluster_kind target.kind
      then []
      else if is_nil target.namespace
      then default_namespace
      else target.namespace;
  name = target.name;
}

module _ (delete_call : ℕ → Resource → Option ClientError) where
  -- `deleteDeployment` to `deleteClusterRoleBinding`: the kind stands for the client's interface.
  unfoldable pub delete_resource : ℕ → Resource → Option ClientError
  delete_resource n target =
      if is_nil target.name then none else ignore_not_found (delete_call n (addressed target))

  -- `reporter.record(kind, ns, name, c.delete…(ctx, ns, name))`
  unfoldable pub delete_and_record : Resource → Cleaning → Cleaning
  unfolding delete_resource record_result
  delete_and_record target c = record {
    calls = if is_nil target.name then c.calls else suc c.calls;
    reporter = record_result c.reporter target (delete_resource c.calls target);
  }

  unfoldable pub delete_additional_objects : Text → List ClientObject → Cleaning → Cleaning
  unfolding delete_and_record
  delete_additional_objects fallback [] r = r
  delete_additional_objects fallback (object kind namespace name ∷ os) r =
      delete_additional_objects fallback os
        (delete_and_record (object_resource fallback kind namespace name) r)
  delete_additional_objects fallback (unsupported ∷ os) r = delete_additional_objects fallback os r

  abbrev pub delete_optional : Option Resource → Cleaning → Cleaning
  delete_optional none r = r
  delete_optional (some target) r = delete_and_record target r

  -- The namespace of the component defaults to that of the cluster.
  unfoldable pub delete_component_resources : Generated → Cleaning → Cleaning
  unfolding delete_additional_objects delete_and_record
  delete_component_resources g r =
      let namespace =
        if is_nil g.component_namespace then default_namespace else g.component_namespace in
      let r1 = delete_additional_objects namespace g.additional_objects r in
      let r2 = delete_optional g.workload r1 in delete_optional g.component_service r2

  unfoldable pub delete_components : List Generated → Cleaning → Cleaning
  unfolding delete_component_resources
  delete_components [] r = r
  delete_components (g ∷ gs) r = delete_components gs (delete_component_resources g r)

  -- `CleanupApplicationResources` for the components of an application that exists: the deleted and
  -- the failed resources, and the error.
  unfoldable pub cleanup_application_resources :
      List Generated → (List Resource × List (Resource × ClientError)) × Option CleanupError
  unfolding delete_components reporter_err
  cleanup_application_resources gs =
      let r =
        (delete_components gs (record { calls = 0; reporter = new_cleanup_reporter })).reporter in
      (
        (r.deleted_resources, r.failed_resources),
        if is_nil r.failed_resources then none else reporter_err r,
      )
