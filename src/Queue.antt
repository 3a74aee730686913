-- ===== src/Queue.antt =====
-- The task queue of the workflow engine: pkg/apiserver/event/workflow/workflow.go (InitQueue,
-- updateQueueAndRunTask), dispatcher.go (claimAndProcessTask, processDispatchMessage),
-- workflow_state.go and the task methods of pkg/apiserver/domain/service/workflow.go.
-- A function takes the table of tasks and returns the new one. Whether the context is cancelled
-- while a function runs is an argument, `ctx_done`.
pub mod Claims
pub mod Requeue
pub mod Cancel
pub mod Tests
use kube_min_cli.Base.{
  ◌≡◌, Bool, true, false, Option, none, some, List, [], ◌∷◌, ◌++◌, Text, text, text_eq, is_nil,
  if◌then◌else◌, not, ◌||◌,
}
use kube_min_cli.Config.{Status, waiting, queued, cancelled, unset}
use kube_min_cli.Model.{WorkflowQueue}
use kube_min_cli.Store.{Gorm, Result, ok, err, get, put, stamped, update_task_status, task_running}

-- How a task's processor ends.
pub data Processed : Type 0 where
  processed context_cancelled process_error : Processed

-- What a claim came to.
pub data Claim : Type 0 where
  claim_error not_claimed ran : Claim

module _ (g : Gorm) where
  open g use {Table}

  -- `markTaskStatus`, by way of `MarkTaskStatus`.
  unfoldable pub mark_task_status : Text → Status → Status → Table → Result Bool × Table
  unfolding update_task_status
  mark_task_status k from to t = update_task_status g k from to t

  -- The end of `claimAndProcessTask`: a task whose processor failed goes back to waiting.
  unfoldable pub after_processing : Bool → Text → Processed × Table → Table
  unfolding mark_task_status
  after_processing ctx_done k (processed, t) = t
  after_processing ctx_done k (context_cancelled, t) = t
  after_processing ctx_done k (process_error, t) =
      if ctx_done then t else (mark_task_status k queued waiting t).1

  abbrev after_claim :
      Bool → Text → (Table → Processed × Table) → Result Bool × Table → Claim × Table
  after_claim ctx_done k processor (err e, t) = (claim_error, t)
  after_claim ctx_done k processor (ok false, t) = (not_claimed, t)
  after_claim ctx_done k processor (ok true, t) = (ran, after_processing ctx_done k (processor t))

  unfoldable pub claim_and_process_task :
      Bool → Text → (Table → Processed × Table) → Table → Claim × Table
  unfolding after_processing mark_task_status
  claim_and_process_task ctx_done k processor t =
      after_claim ctx_done k processor (mark_task_status k waiting queued t)

  -- The loop of `InitQueue`; a write that fails is logged and counted.
  unfoldable pub requeue_all : List WorkflowQueue → Table → Table
  requeue_all [] t = t
  requeue_all (q ∷ qs) t = requeue_all qs (put g (record q { status = waiting }) t).1

  unfoldable pub init_queue : Table → Table
  unfolding requeue_all task_running
  init_queue t = elim (task_running g t) [ ok tasks ↦ requeue_all tasks t | err e ↦ t ]

  -- `runWorkflowTask`: the task whose controller is started, if any. `slot` says that there is no
  -- limiter, or that `Acquire` gives a slot.
  abbrev pub run_workflow_task : Bool → WorkflowQueue → Option WorkflowQueue
  run_workflow_task slot q = if slot then some q else none

  -- `updateQueueAndRunTask`: the task that is run, if any, with the time that `Put` stamps.
  unfoldable pub update_queue_and_run_task :
      Bool → WorkflowQueue → Table → Option WorkflowQueue × Table
  update_queue_and_run_task slot q t =
      let q' = record q { status = queued } in
      let (r, t') = put g q' t in
      (elim r [ ok _ ↦ run_workflow_task slot (stamped g q' t) | err e ↦ none ], t')

  -- `processDispatchMessage` on a payload that decodes to a task id, or does not decode. The
  -- message is acknowledged in every case.
  unfoldable pub process_dispatch_message :
      Bool → Option Text → Table → Bool × Option WorkflowQueue × Table
  unfolding update_queue_and_run_task
  process_dispatch_message slot none t = (true, none, t)
  process_dispatch_message slot (some k) t = elim (get g k t) [
    | err e ↦ (true, none, t)
    | ok q ↦ let (run, t') = update_queue_and_run_task slot q t in (true, run, t')
  ]

  -- `cancelWorkflowTask`: the reason to signal once the row is written.
  unfoldable pub cancel_workflow_task : WorkflowQueue → Text → Text → Table → Result Text × Table
  cancel_workflow_task q user reason t =
      let (r, t') = put g (record q { task_revoker = user; status = cancelled }) t in
      let sent = if is_nil reason then text "cancelled by " ++ user else reason in
      (elim r [ ok _ ↦ ok sent | err e ↦ err e ], t')

  -- `CancelWorkflowTaskForApp`; `none` is `ErrWorkflowNotExist`.
  unfoldable pub cancel_workflow_task_for_app :
      Text → Text → Text → Text → Table → Option (Result Text) × Table
  unfolding cancel_workflow_task
  cancel_workflow_task_for_app app user k reason t = elim (get g k t) [
    | err e ↦ (some (err e), t)
    | ok q ↦
        if is_nil q.app_id || not (text_eq q.app_id app)
        then (none, t)
        else (let (r, t') = cancel_workflow_task q user reason t in (some r, t'))
  ]
