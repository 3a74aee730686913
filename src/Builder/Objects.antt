-- ===== src/Builder/Objects.antt =====
-- NewJobTask, setDeployTimeout and CreateObjectJobsFromResult: jobs for the extra objects that the
-- traits of a component ask for.
use kube_min_cli.Base.{
  ℕ, Bool, true, false, Option, some, none, List, [], ◌∷◌, ◌++◌, Text, Dict, is_nil, if◌then◌else◌,
  ltb,
}
use kube_min_cli.Config.{
  queued, JobType, untyped, deploy_pvc, deploy_ingress, deploy_service_account, deploy_role,
  deploy_role_binding, deploy_cluster_role, deploy_cluster_role_binding, deploy_timeout,
  default_job_task_timeout,
}
use kube_min_cli.Model.{JobTask, WorkflowQueue, no_payload, labelled}
use kube_min_cli.Naming.{Unicode, ingress_name}
use kube_min_cli.Builder.Share.{
  Component, ShareConfig, share_config_for_component, apply_share_labels,
  mark_job_skipped_if_ignored,
}

-- The Kubernetes types that the builder has a job for, and all others.
pub data ObjectKind : Type 0 where
  pvc_object ingress_object service_account_object role_object role_binding_object
        cluster_role_object cluster_role_binding_object other_object :
      ObjectKind

pub record K8sObject : Type 0 where
  pub kind : ObjectKind
  pub name : Text
  pub namespace : Text
  pub labels : Dict Text

-- The timeout is not negative here: a negative one counts as 0 in the source.
unfoldable pub new_job_task : Text → Text → WorkflowQueue → ℕ → JobTask
new_job_task name namespace task timeout_seconds = record {
  name = name;
  namespace = namespace;
  workflow_id = task.workflow_id;
  project_id = task.project_id;
  app_id = task.app_id;
  task_id = task.task_id;
  job_info = no_payload;
  job_type = untyped;
  status = queued;
  start_time = 0;
  end_time = 0;
  error = [];
  timeout = if ltb 0 timeout_seconds then timeout_seconds else default_job_task_timeout;
}

unfoldable pub set_deploy_timeout : JobTask → JobTask
set_deploy_timeout j = record j { timeout = deploy_timeout }

-- The job type of an object, and whether the object lives in a namespace.
abbrev pub object_job : ObjectKind → Option (JobType × Bool)
object_job pvc_object = some (deploy_pvc, true)
object_job ingress_object = some (deploy_ingress, true)
object_job service_account_object = some (deploy_service_account, true)
object_job role_object = some (deploy_role, true)
object_job role_binding_object = some (deploy_role_binding, true)
object_job cluster_role_object = some (deploy_cluster_role, false)
object_job cluster_role_binding_object = some (deploy_cluster_role_binding, false)
object_job other_object = none

module _ {P : Type 0} (u : Unicode) where
  abbrev object_name : K8sObject → Component P → Text
  object_name o c = elim o.kind [
    | ingress_object ↦ ingress_name u (if is_nil o.name then c.name else o.name) c.app_id
    | _ ↦ o.name
  ]

  unfoldable pub create_object_job :
      K8sObject → Component P → WorkflowQueue → ShareConfig → ℕ → List JobTask
  unfolding new_job_task set_deploy_timeout mark_job_skipped_if_ignored
  create_object_job o c task share timeout = elim (object_job o.kind) [
    | none ↦ []
    | some (type, namespaced) ↦
        let own = if is_nil o.namespace then c.namespace else o.namespace in
        let namespace = if namespaced then own else c.namespace in
        let j = new_job_task (object_name o c) namespace task timeout in
        mark_job_skipped_if_ignored share (
          set_deploy_timeout
            (record j { job_type = type; job_info = labelled (apply_share_labels o.labels share) }))
        ∷ []
  ]

  unfoldable pub create_object_jobs :
      List K8sObject → Component P → WorkflowQueue → ShareConfig → ℕ → List JobTask
  unfolding create_object_job
  create_object_jobs [] c task share timeout = []
  create_object_jobs (o ∷ os) c task share timeout =
      create_object_job o c task share timeout ++ create_object_jobs os c task share timeout

  unfoldable pub create_object_jobs_from_result :
      List K8sObject → Component P → WorkflowQueue → List JobTask → ℕ → List JobTask
  unfolding create_object_jobs
  create_object_jobs_from_result os c task jobs timeout =
      jobs ++ create_object_jobs os c task (share_config_for_component u c) timeout
