-- ===== src/Buckets/Tests.antt =====
-- Merging two maps of jobs.
use kube_min_cli.Base.{◌≡◌, refl, [], ◌∷◌, text}
use kube_min_cli.Config.{queued, untyped}
use kube_min_cli.Model.{JobTask, no_payload}
use kube_min_cli.Buckets.{Buckets, new_job_buckets, append_bucket, merge_job_buckets, count_jobs}

abbrev pub some_job : JobTask
some_job = record {
  name = text "web";
  namespace = text "default";
  workflow_id = text "wf-1";
  project_id = [];
  app_id = text "app-1";
  task_id = text "task-1";
  job_info = no_payload;
  job_type = untyped;
  status = queued;
  start_time = 0;
  end_time = 0;
  error = [];
  timeout = 1200;
}

abbrev pub one_job : Buckets
one_job = append_bucket 10 (some_job ∷ []) new_job_buckets

-- Both lists of jobs are kept.
merged : count_jobs (merge_job_buckets one_job one_job) ≡ 2
unfolding count_jobs merge_job_buckets append_bucket new_job_buckets
merged = refl
