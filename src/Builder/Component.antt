-- ===== src/Builder/Component.antt =====
-- buildJobsForComponent, queueServiceJobs and appendComponentGroup.
use kube_min_cli.Base.{
  ℕ, Bool, Option, some, none, List, [], ◌∷◌, Text, text, Dict, lookup, is_nil, if◌then◌else◌,
}
use kube_min_cli.Config.{
  ComponentKind, server_job, store_job, conf_job, secret_job, other_kind, JobType, deploy,
  deploy_store, deploy_config_map, deploy_secret, deploy_service, priority_max_high, priority_high,
  priority_normal,
}
use kube_min_cli.Model.{JobTask, JobPayload, WorkflowQueue}
use kube_min_cli.Naming.{Unicode}
use kube_min_cli.Buckets.{Buckets, new_job_buckets, append_bucket, merge_job_buckets}
use kube_min_cli.Builder.Share.{
  Component, ShareConfig, share_config_for_component, apply_share_labels_to_job_info,
  mark_job_skipped_if_ignored,
}
use kube_min_cli.Builder.Objects.{
  K8sObject, new_job_task, set_deploy_timeout, create_object_jobs_from_result,
}

-- `GenerateServiceResult`
pub record ServiceResult : Type 0 where
  pub service : JobPayload
  pub additional_objects : List K8sObject

-- What the builder calls outside of its file. A generator of a workload may return nil.
pub record Env : Type 1 where
  pub Properties : Type 0
  pub unicode : Unicode
  pub has_ports : Properties → Bool
  pub generate_web_service : Component Properties → Option ServiceResult
  pub generate_store_service : Component Properties → Option ServiceResult
  pub generate_config_map : Component Properties → JobPayload
  pub generate_secret : Component Properties → JobPayload
  pub generate_service : Component Properties → JobPayload

module _ (e : Env) where
  -- A job of the component's own name, with its payload labelled.
  unfoldable pub component_job :
      Component e.Properties → WorkflowQueue → JobType → JobPayload → ShareConfig → ℕ → JobTask
  unfolding new_job_task set_deploy_timeout mark_job_skipped_if_ignored
  component_job c task type payload share timeout =
      let j = new_job_task c.name c.namespace task timeout in
      mark_job_skipped_if_ignored share (
        set_deploy_timeout
          (record j { job_type = type; job_info = apply_share_labels_to_job_info payload share }))

  unfoldable pub queue_service_jobs :
      Buckets
      → Component e.Properties
      → WorkflowQueue
      → JobType
      → Option ServiceResult
      → ℕ
      → ShareConfig
      → Buckets
  unfolding component_job
  queue_service_jobs b c task type none timeout share = b
  queue_service_jobs b c task type (some r) timeout share =
      append_bucket priority_normal (component_job c task type r.service share timeout ∷ []) (
        if is_nil r.additional_objects
        then b
        else append_bucket priority_high
            (create_object_jobs_from_result e.unicode r.additional_objects c task [] timeout) b)

  -- The `switch` on the type of the component.
  unfoldable pub kind_jobs :
      ComponentKind → Component e.Properties → WorkflowQueue → ShareConfig → ℕ → Buckets
  unfolding queue_service_jobs component_job
  kind_jobs server_job c task share timeout =
      queue_service_jobs new_job_buckets c task deploy (e.generate_web_service c) timeout share
  kind_jobs store_job c task share timeout =
      queue_service_jobs new_job_buckets c task deploy_store (e.generate_store_service c) timeout
        share
  kind_jobs conf_job c task share timeout =
      append_bucket priority_max_high
        (component_job c task deploy_config_map (e.generate_config_map c) share timeout ∷ [])
        new_job_buckets
  kind_jobs secret_job c task share timeout =
      append_bucket priority_max_high
        (component_job c task deploy_secret (e.generate_secret c) share timeout ∷ [])
        new_job_buckets
  kind_jobs (other_kind t) c task share timeout = new_job_buckets

  -- `if namespace == "" { component.Namespace = config.DefaultNamespace }`
  abbrev pub with_namespace : Component e.Properties → Component e.Properties
  with_namespace c = record c {
    namespace = if is_nil c.namespace then text "default" else c.namespace;
  }

  unfoldable pub build_jobs_for_component : Component e.Properties → WorkflowQueue → ℕ → Buckets
  unfolding kind_jobs component_job
  build_jobs_for_component c₀ task timeout =
      let c = with_namespace c₀ in
      let share = share_config_for_component e.unicode c in
      let b = kind_jobs c.kind c task share timeout in
      if e.has_ports c.properties
      then append_bucket priority_normal
          (component_job c task deploy_service (e.generate_service c) share timeout ∷ []) b
      else b

  -- Names that no component has are logged and passed over.
  unfoldable pub merge_found :
      Buckets → Option (Component e.Properties) → WorkflowQueue → ℕ → Buckets
  merge_found b none task timeout = b
  merge_found b (some c) task timeout =
      merge_job_buckets b (build_jobs_for_component c task timeout)

  unfoldable pub append_component_group :
      Buckets → List Text → Dict (Component e.Properties) → WorkflowQueue → ℕ → Buckets
  unfolding merge_found
  append_component_group b [] components task timeout = b
  append_component_group b (n ∷ names) components task timeout =
      append_component_group (merge_found b (lookup n components) task timeout) names components
        task timeout
