-- ===== src/Builder/Placed.antt =====
-- What every job of a task is like, and where the jobs for extra objects go.
use kube_min_cli.Base.{
  ℕ, ◌≡◌, ◌⊎◌, inl, inr, refl, Bool, some, List, [], ◌∷◌, Text, arith, All, All-append, Bool-cases,
  Option-cases, ◌==◌, ==_iff, subst, sym,
}
use kube_min_cli.Config.{
  queued, skipped, JobType, untyped, deploy, deploy_store, deploy_service, deploy_config_map,
  deploy_secret,
}
use kube_min_cli.Model.{JobTask, JobPayload, WorkflowQueue}
use kube_min_cli.Naming.{Unicode}
use kube_min_cli.Buckets.{Buckets, new_job_buckets, bucket, append_bucket, merge_job_buckets}
use kube_min_cli.Buckets.Merge.{
  IsStandard, new-IsStandard, merge-IsStandard, bucket-append_bucket, bucket-merge,
}
use kube_min_cli.Builder.Share.{Component, ShareConfig, mark_job_skipped_if_ignored, is_ignore}
use kube_min_cli.Builder.Objects.{
  K8sObject, ObjectKind, object_job, create_object_job, create_object_jobs, new_job_task,
  set_deploy_timeout,
}

-- The priority that the builder gives to a type of job.
unfoldable pub priority_of : JobType → ℕ
priority_of deploy_config_map = 0
priority_of deploy_secret = 0
priority_of deploy = 10
priority_of deploy_store = 10
priority_of deploy_service = 10
priority_of untyped = 20
priority_of _ = 1

-- A job of the task that stands at the priority of its type, queued or skipped, with the deploy
-- timeout.
pub record IsPlaced (task : WorkflowQueue) (p : ℕ) (j : JobTask) : Type 0 where
  pub place : priority_of j.job_type ≡ p
  pub of_task : j.task_id ≡ task.task_id
  pub of_workflow : j.workflow_id ≡ task.workflow_id
  pub of_app : j.app_id ≡ task.app_id
  pub ready : (j.status ≡ queued) ⊎ (j.status ≡ skipped)
  pub limit : j.timeout ≡ 1200

-- Buckets with the four keys, whose jobs are all placed.
pub record AllPlaced (task : WorkflowQueue) (b : Buckets) : Type 0 where
  pub standard : IsStandard b
  pub placed : (p : ℕ) → All (IsPlaced task p) (bucket p b)

abbrev pub AllPlacedAt : WorkflowQueue → ℕ → List JobTask → Type 0
AllPlacedAt task p jobs = All (IsPlaced task p) jobs

new-bucket : (p : ℕ) → bucket p new_job_buckets ≡ []
unfolding new_job_buckets bucket
new-bucket p = ground arith

pub new-AllPlaced : (task : WorkflowQueue) → AllPlaced task new_job_buckets
new-AllPlaced task = record { standard = new-IsStandard; placed = λ p. rw new-bucket tt }

module _ (task : WorkflowQueue) where
  pub append-AllPlaced :
      (q : ℕ) (new : List JobTask) (b : Buckets)
      → IsStandard (append_bucket q new b)
      → AllPlacedAt task q new
      → AllPlaced task b
      → AllPlaced task (append_bucket q new b)
  append-AllPlaced q new b s n h = record {
    standard = s;
    placed = λ p. rw bucket-append_bucket (elim (Bool-cases (p == q)) [
      | inl same ↦ rw same (
          All-append (IsPlaced task p) (bucket p b) new (h.placed p)
            (subst (λ x. AllPlacedAt task x new) (sym ((==_iff p q).0 same)) n))
      | inr other ↦ rw other (h.placed p)
    ]);
  }

  pub merge-AllPlaced :
      (dst src : Buckets)
      → AllPlaced task dst
      → AllPlaced task src
      → AllPlaced task (merge_job_buckets dst src)
  merge-AllPlaced dst src d s = record {
    standard = merge-IsStandard dst src d.standard s.standard;
    placed = λ p.
        rw (bucket-merge p dst src s.standard)
          (All-append (IsPlaced task p) (bucket p dst) (bucket p src) (d.placed p) (s.placed p));
  }

  marked-IsPlaced :
      (p : ℕ) (share : ShareConfig) (j : JobTask)
      → IsPlaced task p j
      → IsPlaced task p (mark_job_skipped_if_ignored share j)
  unfolding mark_job_skipped_if_ignored
  marked-IsPlaced p share j h = elim (Bool-cases (is_ignore share)) [
    | inl e ↦
        rw (e, mark_job_skipped_if_ignored)
          (record {
            place = h.place;
            of_task = h.of_task;
            of_workflow = h.of_workflow;
            of_app = h.of_app;
            ready = inr refl;
            limit = h.limit;
          })
    | inr e ↦ rw (e, mark_job_skipped_if_ignored) h
  ]

  -- A job from `new_job_task` with the deploy timeout, of a given type.
  pub made_marked :
      (p : ℕ) (share : ShareConfig) (name namespace : Text) (type : JobType) (info : JobPayload)
      (timeout : ℕ)
      → priority_of type ≡ p
      → IsPlaced task p (
          mark_job_skipped_if_ignored share (
            set_deploy_timeout (record (new_job_task name namespace task timeout) {
              job_type = type;
              job_info = info;
            })))
  unfolding set_deploy_timeout new_job_task
  made_marked p share name namespace type info timeout e =
      marked-IsPlaced p share
        (set_deploy_timeout
          (record (new_job_task name namespace task timeout) { job_type = type; job_info = info }))
        (record {
          place = e;
          of_task = refl;
          of_workflow = refl;
          of_app = refl;
          ready = inl refl;
          limit = refl;
        })

  object_priority :
      (kind : ObjectKind) (type : JobType) (namespaced : Bool)
      → object_job kind ≡ some (type, namespaced)
      → priority_of type ≡ 1
  unfolding priority_of
  object_priority kind type namespaced e = ground arith

  create_object_job-placed :
      {P : Type 0} (u : Unicode) (o : K8sObject) (c : Component P) (share : ShareConfig)
      (timeout : ℕ)
      → AllPlacedAt task 1 (create_object_job u o c task share timeout)
  unfolding create_object_job
  create_object_job-placed u o c share timeout = elim (Option-cases (object_job o.kind)) [
    | inl e ↦ rw (e, create_object_job) tt
    | inr ((type, namespaced), e) ↦
        rw (e, create_object_job)
          (made_marked 1 share _ _ type _ timeout (object_priority o.kind type namespaced e), tt)
  ]

  pub create_object_jobs-placed :
      {P : Type 0} (u : Unicode) (os : List K8sObject) (c : Component P) (share : ShareConfig)
      (timeout : ℕ)
      → AllPlacedAt task 1 (create_object_jobs u os c task share timeout)
  unfolding create_object_jobs
  create_object_jobs-placed u [] c share timeout = tt
  create_object_jobs-placed u (o ∷ os) c share timeout =
      All-append (IsPlaced task 1) _ _ (create_object_job-placed u o c share timeout)
        (create_object_jobs-placed u os c share timeout)
