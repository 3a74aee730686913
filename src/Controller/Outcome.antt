-- ===== src/Controller/Outcome.antt =====
-- What a run writes to the store.
use kube_min_cli.Base.{
  ℕ, zero, suc, ◌≡◌, inl, inr, refl, false, not, Option, some, none, List, [], ◌∷◌, ◌++◌, Text,
  length, arith, All, All-append, Option-cases,
}
use kube_min_cli.Config.{running, completed, failed, WorkflowMode, is_parallel}
use kube_min_cli.Model.{JobTask, WorkflowQueue}
use kube_min_cli.Buckets.{Buckets, bucket, sorted_priorities, determine_step_concurrency}
use kube_min_cli.Builder.Steps.{StepExecution}
use kube_min_cli.Controller.{
  Ctl, is_workflow_terminal, update_workflow_task, ack_times, set_status, update_workflow_status,
  RunJobs, run_batch, run_priorities, run_executions, run, begin_run, finish_run,
}

-- The task runs, and all that was written says so and is a row of the task.
pub record IsRunning (id : Text) (c : Ctl) : Type 0 where
  pub now : c.task.status ≡ running
  pub own : c.task.task_id ≡ id
  pub so_far : All (λ q. (q.status ≡ running) × (q.task_id ≡ id)) c.writes

not_terminal : (c : Ctl) → c.task.status ≡ running → is_workflow_terminal c.task.status ≡ false
unfolding is_workflow_terminal
not_terminal c h = ground arith

update-IsRunning : (id : Text) (c : Ctl) → IsRunning id c → IsRunning id (update_workflow_task c)
unfolding update_workflow_task
update-IsRunning id c h =
    rw (not_terminal c h.now, update_workflow_task)
      (record {
        now = h.now;
        own = h.own;
        so_far =
            All-append (λ q. (q.status ≡ running) × (q.task_id ≡ id)) c.writes (c.task ∷ [])
              h.so_far ((h.now, h.own), tt);
      })

ack_times-IsRunning : (id : Text) (n : ℕ) (c : Ctl) → IsRunning id c → IsRunning id (ack_times n c)
unfolding ack_times
ack_times-IsRunning id zero c h = h
ack_times-IsRunning id (suc n) c h =
    ack_times-IsRunning id n (update_workflow_task c) (update-IsRunning id c h)

module _ (run_jobs : RunJobs) (limit : ℕ) (id : Text) where
  batch-IsRunning :
      (mode : WorkflowMode) (js : List JobTask) (c : Ctl)
      → IsRunning id c
      → IsRunning id (run_batch run_jobs limit mode js c).1
  unfolding run_batch
  batch-IsRunning mode [] c h = h
  batch-IsRunning mode (j ∷ js) c h =
      let (jobs, acks) =
        run_jobs (determine_step_concurrency mode (length (j ∷ js)) limit) (not (is_parallel mode))
          (j ∷ js) in
      ack_times-IsRunning id acks (record c { batches = c.batches ++ ((j ∷ js) ∷ []) })
        (record { now = h.now; own = h.own; so_far = h.so_far })

  priorities-IsRunning :
      (mode : WorkflowMode) (b : Buckets) (ps : List ℕ) (c : Ctl)
      → IsRunning id c
      → IsRunning id (run_priorities run_jobs limit mode b ps c).1
  unfolding run_priorities
  priorities-IsRunning mode b [] c h = h
  priorities-IsRunning mode b (p ∷ ps) c h =
      let (failure, c') = run_batch run_jobs limit mode (bucket p b) c in
      let h' = batch-IsRunning mode (bucket p b) c h in
      elim (Option-cases failure) [
        | inl e ↦ rw (e, run_priorities) (priorities-IsRunning mode b ps c' h')
        | inr (j, e) ↦ rw (e, run_priorities) h'
      ]

  executions-IsRunning :
      (xs : List StepExecution) (c : Ctl)
      → IsRunning id c
      → IsRunning id (run_executions run_jobs limit xs c).1
  unfolding run_executions
  executions-IsRunning [] c h = h
  executions-IsRunning (x ∷ xs) c h =
      let (failure, c') =
        run_priorities run_jobs limit x.mode x.jobs (sorted_priorities x.jobs) c in
      let h' = priorities-IsRunning x.mode x.jobs (sorted_priorities x.jobs) c h in
      elim (Option-cases failure) [
        | inl e ↦ rw (e, run_executions) (executions-IsRunning xs c' h')
        | inr (j, e) ↦ rw (e, run_executions) h'
      ]

begin_run-IsRunning : (task : WorkflowQueue) (now : ℕ) → IsRunning task.task_id (begin_run task now)
unfolding begin_run
begin_run-IsRunning task now = record { now = refl; own = refl; so_far = tt }

abbrev Failed : Text → Option JobTask × Ctl → Type 0
Failed id r =
    (r.1.task.status ≡ failed) × All (λ q. (q.status ≡ running) × (q.task_id ≡ id)) r.1.writes

finish_run-Failed :
    (id : Text) (r : Option JobTask × Ctl) (j : JobTask)
    → IsRunning id r.1
    → (finish_run r).0 ≡ some j
    → Failed id (finish_run r)
unfolding finish_run set_status update_workflow_task is_workflow_terminal
finish_run-Failed id (none, c) j h e = cc
finish_run-Failed id (some k, c) j h e = (refl, h.so_far)

finish_run-completed :
    (r : Option JobTask × Ctl)
    → (finish_run r).0 ≡ none
    → ((finish_run r).1.task.status ≡ completed)
      × ((ws : List WorkflowQueue) × ((finish_run r).1.writes ≡ ws ++ ((finish_run r).1.task ∷ [])))
unfolding finish_run set_status update_workflow_status update_workflow_task is_workflow_terminal
finish_run-completed (some k, c) e = cc
finish_run-completed (none, c) e = (refl, (_, refl))

module _ (run_jobs : RunJobs) (limit : ℕ) (task : WorkflowQueue) (now : ℕ)
    (xs : List StepExecution) where
  -- A run that fails ends with the status `failed` in memory, and stores nothing of it: each row that
  -- the run puts to the store is a row of its task that says `running`.
  pub run-failed :
      (j : JobTask)
      → (run run_jobs limit task now xs).0 ≡ some j
      → ((run run_jobs limit task now xs).1.task.status ≡ failed)
        × All
            (λ q. (q.status ≡ running) × (q.task_id ≡ task.task_id))
            (run run_jobs limit task now xs).1.writes
  unfolding run
  run-failed j h =
      finish_run-Failed task.task_id
        (run_executions run_jobs limit xs (update_workflow_task (begin_run task now))) j
        (executions-IsRunning run_jobs limit task.task_id xs
          (update_workflow_task (begin_run task now))
          (update-IsRunning task.task_id (begin_run task now) (begin_run-IsRunning task now)))
        h

  -- A run without a failure ends with the status `completed`, and the row that it puts to the store
  -- last is the task with that status.
  pub run-completed :
      (run run_jobs limit task now xs).0 ≡ none
      → ((run run_jobs limit task now xs).1.task.status ≡ completed)
        × ((ws : List WorkflowQueue) × ((run run_jobs limit task now xs).1.writes
              ≡ ws ++ ((run run_jobs limit task now xs).1.task ∷ [])))
  unfolding run
  run-completed h =
      finish_run-completed
        (run_executions run_jobs limit xs (update_workflow_task (begin_run task now))) h
