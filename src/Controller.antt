-- ===== src/Controller.antt =====
-- pkg/apiserver/event/workflow/controller.go: WorkflowCtl runs the executions of a task, one after
-- another and by priority, and writes the status of the task to the store.
-- `writes` collects the rows that are put to the store, the latest last. What RunJobs does is the
-- parameter `run_jobs`: for a concurrency, a stop-on-failure flag and the jobs, the jobs as they are
-- afterwards, and how often the jobs called back (`ack`) on the way. The time of update that a
-- put stamps on the task is left out, here and in the rows.
pub mod Plan
pub mod Outcome
pub mod Tests
use kube_min_cli.Base.{
  ℕ, zero, suc, ◌+◌, Bool, true, false, not, ◌&&◌, Option, some, none, List, [], ◌∷◌, ◌++◌, Text,
  is_nil, length, ltb, if◌then◌else◌,
}
use kube_min_cli.Config.{
  Status, running, completed, skipped, passed, failed, timeout, reject, WorkflowMode, is_parallel,
  default_job_task_timeout,
}
use kube_min_cli.Model.{JobTask, WorkflowQueue}
use kube_min_cli.Buckets.{Buckets, bucket, sorted_priorities, determine_step_concurrency}
use kube_min_cli.Builder.Steps.{StepExecution}

unfoldable pub is_job_success_status : Status → Bool
is_job_success_status completed = true
is_job_success_status skipped = true
is_job_success_status passed = true
is_job_success_status _ = false

unfoldable pub is_workflow_terminal : Status → Bool
is_workflow_terminal passed = true
is_workflow_terminal failed = true
is_workflow_terminal timeout = true
is_workflow_terminal reject = true
is_workflow_terminal _ = false

-- The default timeout of the configuration in whole seconds, `none` where there is no configuration.
unfoldable pub resolve_default_job_timeout : Option ℕ → ℕ
resolve_default_job_timeout none = default_job_task_timeout
resolve_default_job_timeout (some seconds) =
    if ltb 0 seconds then seconds else default_job_task_timeout

-- The state of a `WorkflowCtl`: its task, the rows written, and the lists of jobs handed to RunJobs.
pub record Ctl : Type 0 where
  pub task : WorkflowQueue
  pub writes : List WorkflowQueue
  pub batches : List (List JobTask)

-- `updateWorkflowTask`, the callback `ack`: a task that is over is not written.
unfoldable pub update_workflow_task : Ctl → Ctl
update_workflow_task c =
    if is_workflow_terminal c.task.status
    then c
    else record c { writes = c.writes ++ (c.task ∷ []) }

unfoldable pub ack_times : ℕ → Ctl → Ctl
unfolding update_workflow_task
ack_times zero c = c
ack_times (suc n) c = ack_times n (update_workflow_task c)

unfoldable pub set_status : Status → Ctl → Ctl
set_status s c = record c { task = record c.task { status = s } }

-- `updateWorkflowStatus`: the task is written whatever its status.
unfoldable pub update_workflow_status : Ctl → Ctl
unfolding set_status
update_workflow_status c =
    let c' = set_status completed c in record c' { writes = c'.writes ++ (c'.task ∷ []) }

-- The first job whose status is no success.
unfoldable pub first_failure : List JobTask → Option JobTask
unfolding is_job_success_status
first_failure [] = none
first_failure (j ∷ js) =
    let rest = first_failure js in if is_job_success_status j.status then rest else some j

abbrev pub RunJobs : Type 0
RunJobs = ℕ → Bool → List JobTask → List JobTask × ℕ

-- The controller when its task is set to running.
unfoldable pub begin_run : WorkflowQueue → ℕ → Ctl
begin_run task now = record {
  task = record task { status = running; create_time = now };
  writes = [];
  batches = [];
}

-- The end of `Run`, with the deferred `ack`: the result and the final state.
unfoldable pub finish_run : Option JobTask × Ctl → Option JobTask × Ctl
unfolding set_status update_workflow_status update_workflow_task
finish_run (some j, c) = (some j, update_workflow_task (set_status failed c))
finish_run (none, c) = (none, update_workflow_task (update_workflow_status c))

module _ (run_jobs : RunJobs) (seq_limit : ℕ) where
  -- The body of the loop over priorities: the job that failed, if any.
  unfoldable pub run_batch : WorkflowMode → List JobTask → Ctl → Option JobTask × Ctl
  unfolding first_failure ack_times determine_step_concurrency
  run_batch mode [] c = (none, c)
  run_batch mode (j ∷ js) c =
      let concurrency = determine_step_concurrency mode (length (j ∷ js)) seq_limit in
      let (jobs, acks) = run_jobs concurrency (not (is_parallel mode)) (j ∷ js) in
      (first_failure jobs, ack_times acks (record c { batches = c.batches ++ ((j ∷ js) ∷ []) }))

  unfoldable pub run_priorities : WorkflowMode → Buckets → List ℕ → Ctl → Option JobTask × Ctl
  unfolding run_batch
  run_priorities mode b [] c = (none, c)
  run_priorities mode b (p ∷ ps) c =
      let (failure, c') = run_batch mode (bucket p b) c in
      let rest = run_priorities mode b ps c' in elim failure [ some j ↦ (some j, c') | none ↦ rest ]

  unfoldable pub run_executions : List StepExecution → Ctl → Option JobTask × Ctl
  unfolding run_priorities sorted_priorities
  run_executions [] c = (none, c)
  run_executions (x ∷ xs) c =
      let (failure, c') = run_priorities x.mode x.jobs (sorted_priorities x.jobs) c in
      let rest = run_executions xs c' in elim failure [ some j ↦ (some j, c') | none ↦ rest ]

  -- `WorkflowCtl.Run` on the generated executions, at time `now`. The result names the job that
  -- failed, or is `none` for a nil error.
  unfoldable pub run : WorkflowQueue → ℕ → List StepExecution → Option JobTask × Ctl
  run task now xs = finish_run (run_executions xs (update_workflow_task (begin_run task now)))

-- `seqLimit` of `Run`.
unfoldable pub sequential_limit : ℕ → ℕ
sequential_limit concurrency = if ltb 0 concurrency then concurrency else 1
