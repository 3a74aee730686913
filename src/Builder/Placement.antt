-- ===== src/Builder/Placement.antt =====
-- Where the jobs of a component go.
use kube_min_cli.Base.{
  ℕ, ◌≡◌, inl, inr, refl, Option, some, none, List, [], ◌∷◌, Text, Dict, lookup, is_nil,
  if◌then◌else◌, Bool-cases,
}
use kube_min_cli.Config.{
  ComponentKind, server_job, store_job, conf_job, secret_job, other_kind, JobType, deploy,
  deploy_store, deploy_service, deploy_config_map, deploy_secret,
}
use kube_min_cli.Model.{JobPayload, WorkflowQueue}
use kube_min_cli.Buckets.{Buckets, new_job_buckets, append_bucket}
use kube_min_cli.Buckets.Merge.{new-IsStandard, append-IsStandard}
use kube_min_cli.Builder.Share.{Component, ShareConfig, share_config_for_component}
use kube_min_cli.Builder.Objects.{create_object_jobs_from_result}
use kube_min_cli.Builder.Component.{
  Env, ServiceResult, component_job, queue_service_jobs, kind_jobs, build_jobs_for_component,
  with_namespace, merge_found, append_component_group,
}
use kube_min_cli.Builder.Placed.{
  priority_of, AllPlaced, AllPlacedAt, new-AllPlaced, append-AllPlaced, merge-AllPlaced,
  made_marked, create_object_jobs-placed,
}

module _ (task : WorkflowQueue) where
  module _ (e : Env) (c : Component e.Properties) (timeout : ℕ) where
    component_job-placed :
        (p : ℕ) (type : JobType) (info : JobPayload) (share : ShareConfig)
        → priority_of type ≡ p
        → AllPlacedAt task p (component_job e c task type info share timeout ∷ [])
    unfolding component_job
    component_job-placed p type info share h = (made_marked task p share _ _ type _ timeout h, tt)

    queue-placed :
        (b : Buckets) (type : JobType) (r : Option ServiceResult) (share : ShareConfig)
        → priority_of type ≡ 10
        → AllPlaced task b
        → AllPlaced task (queue_service_jobs e b c task type r timeout share)
    unfolding queue_service_jobs create_object_jobs_from_result
    queue-placed b type none share h a = a
    queue-placed b type (some r) share h a =
        let objects =
          create_object_jobs_from_result e.unicode r.additional_objects c task [] timeout in
        let a' : AllPlaced task
            (if is_nil r.additional_objects then b else append_bucket 1 objects b) =
          elim (Bool-cases (is_nil r.additional_objects)) [
            | inl n ↦ rw n a
            | inr n ↦ rw n (
                append-AllPlaced task 1 objects b (append-IsStandard 1 objects b refl a.standard)
                  (create_object_jobs-placed task e.unicode r.additional_objects c
                    (share_config_for_component e.unicode c) timeout)
                  a)
          ] in
        append-AllPlaced task 10 _ _ (append-IsStandard 10 _ _ refl a'.standard)
          (component_job-placed 10 type r.service share h) a'

    kind_jobs-placed :
        (kind : ComponentKind) (share : ShareConfig)
        → AllPlaced task (kind_jobs e kind c task share timeout)
    unfolding kind_jobs priority_of
    kind_jobs-placed server_job share =
        queue-placed new_job_buckets deploy _ share refl (new-AllPlaced task)
    kind_jobs-placed store_job share =
        queue-placed new_job_buckets deploy_store _ share refl (new-AllPlaced task)
    kind_jobs-placed conf_job share =
        append-AllPlaced task 0 _ _ (append-IsStandard 0 _ _ refl new-IsStandard)
          (component_job-placed 0 deploy_config_map _ share refl) (new-AllPlaced task)
    kind_jobs-placed secret_job share =
        append-AllPlaced task 0 _ _ (append-IsStandard 0 _ _ refl new-IsStandard)
          (component_job-placed 0 deploy_secret _ share refl) (new-AllPlaced task)
    kind_jobs-placed (other_kind t) share = new-AllPlaced task

  module _ (e : Env) (timeout : ℕ) where
    -- Every job that is built for a component belongs to the task, is queued or skipped with a timeout
    -- of 1200 seconds, and stands at the priority of its type: 0 for configuration, 1 for the extra
    -- objects, 10 for workloads and services.
    pub build_jobs_for_component-AllPlaced :
        (c : Component e.Properties) → AllPlaced task (build_jobs_for_component e c task timeout)
    unfolding build_jobs_for_component priority_of
    build_jobs_for_component-AllPlaced c =
        let c' = with_namespace e c in
        let share = share_config_for_component e.unicode c' in
        let a = kind_jobs-placed e c' timeout c'.kind share in
        elim (Bool-cases (e.has_ports c.properties)) [
          | inl h ↦
              rw (h, build_jobs_for_component)
                (append-AllPlaced task 10 _ _ (append-IsStandard 10 _ _ refl a.standard)
                  (component_job-placed e c' timeout 10 deploy_service _ share refl) a)
          | inr h ↦ rw (h, build_jobs_for_component) a
        ]

    merge_found-AllPlaced :
        (b : Buckets) (c : Option (Component e.Properties))
        → AllPlaced task b
        → AllPlaced task (merge_found e b c task timeout)
    unfolding merge_found
    merge_found-AllPlaced b none a = a
    merge_found-AllPlaced b (some c) a =
        merge-AllPlaced task b _ a (build_jobs_for_component-AllPlaced c)

    pub append_component_group-AllPlaced :
        (b : Buckets) (names : List Text) (m : Dict (Component e.Properties))
        → AllPlaced task b
        → AllPlaced task (append_component_group e b names m task timeout)
    unfolding append_component_group
    append_component_group-AllPlaced b [] m a = a
    append_component_group-AllPlaced b (n ∷ names) m a =
        append_component_group-AllPlaced (merge_found e b (lookup n m) task timeout) names m
          (merge_found-AllPlaced b (lookup n m) a)
