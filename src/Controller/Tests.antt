-- ===== src/Controller/Tests.antt =====
-- Runs of a workflow with one execution of one job.
use kube_min_cli.Base.{◌≡◌, refl, List, [], ◌∷◌, text, All, map}
use kube_min_cli.Config.{Status, waiting, running, failed, dag}
use kube_min_cli.Model.{JobTask, WorkflowQueue}
use kube_min_cli.Buckets.{
  new_job_buckets, bucket, append_bucket, sorted_priorities, determine_step_concurrency,
}
use kube_min_cli.Buckets.Tests.{some_job, one_job}
use kube_min_cli.Builder.Steps.{StepExecution}
use kube_min_cli.Controller.{
  RunJobs, run, begin_run, finish_run, run_executions, run_priorities, run_batch, first_failure,
  update_workflow_task, is_workflow_terminal, is_job_success_status, set_status, ack_times,
}
use kube_min_cli.Controller.Outcome.{run-failed}

abbrev task : WorkflowQueue
task = record {
  task_id = text "task-1";
  project_id = [];
  workflow_name = text "wf";
  app_id = text "app-1";
  workflow_id = text "wf-1";
  status = waiting;
  task_revoker = [];
  create_time = 7;
  update_time = 7;
}

abbrev one_step : List StepExecution
one_step = record { name = text "deploy"; mode = dag; jobs = one_job } ∷ []

-- A RunJobs that leaves every job with a status.
abbrev all_end : Status → RunJobs
all_end s concurrency stop jobs = (map {A = JobTask} (λ j. record j { status = s }) jobs, 2)

run-failed_example :
    ((run (all_end failed) 1 task 5 one_step).1.task.status ≡ failed)
    × All
        (λ q. (q.status ≡ running) × (q.task_id ≡ task.task_id))
        (run (all_end failed) 1 task 5 one_step).1.writes
unfolding run run_executions run_priorities run_batch first_failure is_job_success_status begin_run
    update_workflow_task is_workflow_terminal finish_run set_status ack_times sorted_priorities
    bucket append_bucket new_job_buckets determine_step_concurrency
run-failed_example =
    run-failed (all_end failed) 1 task 5 one_step (record some_job { status = failed }) refl
