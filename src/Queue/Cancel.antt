-- ===== src/Queue/Cancel.antt =====
-- Cancelling a task, and a cancelled task whose dispatch message is still in the queue.
use kube_min_cli.Base.{
  ℕ, ◌<◌, Bool, ◌≡◌, refl, true, false, some, none, ◌++◌, Text, text, text_eq_refl, is_nil,
  if◌then◌else◌, arith,
}
use mathlib.Core.Option
use kube_min_cli.Config.{queued, cancelled}
use kube_min_cli.Model.{WorkflowQueue}
use kube_min_cli.Store.{Gorm, done, ok, get, put, stamped, overlay}
use kube_min_cli.Queue.{
  update_queue_and_run_task, process_dispatch_message, cancel_workflow_task_for_app,
}

overlay_queued :
    (q : WorkflowQueue) (now : ℕ)
    → 0 < now
    → let q' = record q { status = queued; update_time = now } in overlay q' q ≡ q'
unfolding overlay
overlay_queued q now h = ground arith

module _ (g : Gorm) where
  open g use {Table, row, clock, first, updates}

  put_lem :
      (q : WorkflowQueue) (t : Table)
      → is_nil q.task_id ≡ false
      → (updates (stamped g q t) t).0 ≡ done tt
      → ((put g q t).0 ≡ ok tt)
        × (row q.task_id (put g q t).1 ≡ Option.map (overlay (stamped g q t)) (row q.task_id t))
  unfolding put
  put_lem q t e d = (
    ground arith,
    ground (arith, g.updates_row (stamped g q t) t q.task_id d, text_eq_refl q.task_id),
  )

  get-done :
      (k : Text) (q : WorkflowQueue) (t : Table)
      → is_nil k ≡ false
      → first k t ≡ done q
      → get g k t ≡ ok q
  unfolding get
  get-done k q t n f = ground arith

  -- A dispatch message runs its task whatever status the stored row has, `cancelled` included: when
  -- the row is read and written without an error, the message is acknowledged, its row says
  -- `queued`, and the task is run, if a slot is had.
  pub process_dispatch_message-runs :
      (slot : Bool) (k : Text) (q : WorkflowQueue) (t : Table)
      → is_nil k ≡ false
      → first k t ≡ done q
      → (updates (record q { status = queued; update_time = clock t }) t).0 ≡ done tt
      → ((process_dispatch_message g slot (some k) t).0 ≡ true)
        × ((process_dispatch_message g slot (some k) t).1
            ≡ (if slot then some (record q { status = queued; update_time = clock t }) else none))
        × (row k (process_dispatch_message g slot (some k) t).2
            ≡ some (record q { status = queued; update_time = clock t }))
  unfolding process_dispatch_message
  process_dispatch_message-runs slot k q t n f u =
      let e = g.first_row k t q f in
      let same = g.row_id k t q e in
      let (o, m) = put_lem (record q { status = queued }) t (rw same n) u in
      let stored : row k (put g (record q { status = queued }) t).1
          ≡ some (record q { status = queued; update_time = clock t }) =
        ground (arith, overlay_queued q (clock t) (g.clock_positive t)) in
      let loaded = get-done k q t n f in
      (
        rw (loaded, process_dispatch_message) refl,
        rw (loaded, process_dispatch_message) (rw (o, update_queue_and_run_task) refl),
        rw (loaded, process_dispatch_message) stored,
      )

  -- Cancelling through the task's own application, where the row is read and written without an
  -- error, marks the row as cancelled, and passes on the reason, or names the user where none is given.
  pub cancel_workflow_task_for_app-own :
      (user k reason : Text) (q : WorkflowQueue) (t : Table)
      → is_nil k ≡ false
      → first k t ≡ done q
      → is_nil q.app_id ≡ false
      → (updates (record q { task_revoker = user; status = cancelled; update_time = clock t }) t).0
        ≡ done tt
      → let (r, t') = cancel_workflow_task_for_app g q.app_id user k reason t in
        (r ≡ some (ok (if is_nil reason then text "cancelled by " ++ user else reason)))
        × (Option.map (λ (r : WorkflowQueue). r.status) (row k t') ≡ some cancelled)
  unfolding cancel_workflow_task_for_app overlay
  cancel_workflow_task_for_app-own user k reason q t n f a u =
      let e = g.first_row k t q f in
      let same = g.row_id k t q e in
      let q' = record q { task_revoker = user; status = cancelled } in
      let (o, m) = put_lem q' t (rw same n) u in
      let loaded = get-done k q t n f in
      let stored : Option.map (λ (r : WorkflowQueue). r.status) (row k (put g q' t).1)
          ≡ some cancelled =
        ground arith in
      (ground (arith, text_eq_refl q.app_id), ground (arith, text_eq_refl q.app_id))
