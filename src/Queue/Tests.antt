-- ===== src/Queue/Tests.antt =====
-- The task queue on a table of one row.
use kube_min_cli.Base.{
  ℕ, ◌≡◌, ◌≢◌, ◌≤◌, refl, true, false, Option, some, none, List, [], ◌∷◌, Text, text, text_eq,
}
use kube_min_cli.Config.{Status, waiting, queued, running, cancelled}
use kube_min_cli.Model.{WorkflowQueue}
use kube_min_cli.Store.{is_active, affected}
use kube_min_cli.Store.OneRow.{one_row, row}
use kube_min_cli.Queue.{
  Processed, process_error, ran, init_queue, claim_and_process_task, process_dispatch_message,
}
use kube_min_cli.Queue.Claims.{Action, claims, writes, times_claimed, times_claimed-le-one}
use kube_min_cli.Queue.Requeue.{
  Reliable, init_queue-active, waiting_at, claim_and_process_task-restores,
}
use kube_min_cli.Queue.Cancel.{process_dispatch_message-runs}

abbrev task_one : Text
task_one = text "task-1"

abbrev app_one : Text
app_one = text "app-1"

abbrev task_in : Status → WorkflowQueue
task_in s = record {
  task_id = task_one;
  project_id = [];
  workflow_name = text "wf";
  app_id = app_one;
  workflow_id = text "wf-1";
  status = s;
  task_revoker = [];
  create_time = 7;
  update_time = 7;
}

abbrev two_dispatchers : List Action
two_dispatchers =
    claims task_one ∷ claims task_one ∷ writes (task_in running) ∷ claims task_one ∷ []

times_claimed-le-one_example :
    times_claimed one_row task_one two_dispatchers (some (task_in waiting)) ≤ 1
times_claimed-le-one_example =
    times_claimed-le-one one_row task_one two_dispatchers (some (task_in waiting))
      (λ h. h, (λ h. h, (λ h. running≢waiting h.1, (λ h. h, tt))))
  where
    running≢waiting : running ≢ waiting
    running≢waiting e = cc

one_row-Reliable : Reliable one_row
one_row-Reliable q none = refl
one_row-Reliable q (some r) = refl

init_queue-active_example :
    (time : ℕ) × (row task_one (init_queue one_row (some (task_in running)))
      ≡ some (waiting_at time (task_in running)))
unfolding is_active
init_queue-active_example =
    init_queue-active one_row (some (task_in running)) (task_in running ∷ []) (task_in running)
      one_row-Reliable refl refl (unfold text_eq in refl) refl

-- A processor that cannot reach the message queue.
abbrev no_dispatch : Option WorkflowQueue → Processed × Option WorkflowQueue
no_dispatch t = (process_error, t)

claim_and_process_task-restores_example :
    ((claim_and_process_task one_row false task_one no_dispatch (some (task_in waiting))).0 ≡ ran)
    × ((time : ℕ) × (row task_one
            (claim_and_process_task one_row false task_one no_dispatch (some (task_in waiting))).1
          ≡ some (record (task_in waiting) { update_time = time })))
unfolding text_eq
claim_and_process_task-restores_example =
    claim_and_process_task-restores one_row task_one (task_in waiting) (some (task_in waiting))
      no_dispatch refl refl refl (λ from to now u. (affected from (row task_one u), refl))
      (λ u. (refl, refl))

process_dispatch_message-runs_example :
    ((process_dispatch_message one_row true (some task_one) (some (task_in cancelled))).0 ≡ true)
    × ((process_dispatch_message one_row true (some task_one) (some (task_in cancelled))).1
        ≡ some (record (task_in queued) { update_time = 9 }))
    × (row task_one
          (process_dispatch_message one_row true (some task_one) (some (task_in cancelled))).2
        ≡ some (record (task_in queued) { update_time = 9 }))
unfolding text_eq
process_dispatch_message-runs_example =
    process_dispatch_message-runs one_row true task_one (task_in cancelled)
      (some (task_in cancelled)) refl refl refl
