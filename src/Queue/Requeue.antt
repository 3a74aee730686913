-- ===== src/Queue/Requeue.antt =====
-- What a restart (`InitQueue`) does to the tasks, and how a failed processor gives its task back.
use kube_min_cli.Base.{
  ℕ, ◌<◌, ◌≡◌, ◌≢◌, inl, inr, refl, ap, subst, ◌∙◌, true, false, Option, some, List, [], ◌∷◌, Text,
  text_eq_refl, is_nil, arith, All,
}
use mathlib.Core.Option
use mathlib.Core.List.{Memᴰ}
use kube_min_cli.Config.{Status, waiting, queued}
use kube_min_cli.Model.{WorkflowQueue}
use kube_min_cli.Store.{
  Gorm, done, put, stamped, overlay, is_active, update_task_status, compare_and_swap,
}
use kube_min_cli.Store.Swap.{Outcome-cases, swap-hit}
use kube_min_cli.Queue.Claims.{row-put}
use kube_min_cli.Queue.{
  Processed, processed, context_cancelled, process_error, requeue_all, init_queue, after_processing,
  claim_and_process_task, ran,
}

-- The row of a task, but waiting, with some time of update.
abbrev pub waiting_at : ℕ → WorkflowQueue → WorkflowQueue
waiting_at time q = record q { status = waiting; update_time = time }

abbrev IsWaiting : WorkflowQueue → Option WorkflowQueue → Type 0
IsWaiting q o = (time : ℕ) × (o ≡ some (waiting_at time q))

-- Writing a row over itself with the status waiting changes the status and the time of update alone.
overlay_self :
    (q : WorkflowQueue) (now : ℕ) → 0 < now → overlay (waiting_at now q) q ≡ waiting_at now q
unfolding overlay
overlay_self q now h = ground arith

overlay_again :
    (q : WorkflowQueue) (now time : ℕ)
    → 0 < now
    → overlay (waiting_at now q) (waiting_at time q) ≡ waiting_at now q
unfolding overlay
overlay_again q now time h = ground arith

module _ (g : Gorm) where
  open g use {Table, row, clock, first, updates, update_where, find_in}

  requeue_all-other :
      (qs : List WorkflowQueue) (t : Table) (k : Text)
      → All (λ q. q.task_id ≢ k) qs
      → row k (requeue_all g qs t) ≡ row k t
  unfolding requeue_all
  requeue_all-other [] t k h = refl
  requeue_all-other (q ∷ qs) t k h =
      requeue_all-other qs (put g (record q { status = waiting }) t).1 k h.1
      ∙ (elim (row-put g (record q { status = waiting }) t k) [
        | inl same ↦ same
        | inr (mine, new) ↦ absurd (h.0 mine)
      ])

  -- No write of the program fails.
  abbrev pub Reliable : Type 0
  Reliable = (q : WorkflowQueue) (t : Table) → (updates q t).0 ≡ done tt

  put_done :
      (q : WorkflowQueue) (t : Table)
      → is_nil q.task_id ≡ false
      → (updates (stamped g q t) t).0 ≡ done tt
      → row q.task_id (put g q t).1 ≡ Option.map (overlay (stamped g q t)) (row q.task_id t)
  unfolding put
  put_done q t e d =
      ground (arith, g.updates_row (stamped g q t) t q.task_id d, text_eq_refl q.task_id)

  abbrev Agrees : Text → WorkflowQueue → List WorkflowQueue → Type 0
  Agrees k q = All (λ r. r.task_id ≡ k → r ≡ q)

  requeue_all-IsWaiting :
      (qs : List WorkflowQueue) (t : Table) (k : Text) (q : WorkflowQueue)
      → Agrees k q qs
      → IsWaiting q (row k t)
      → IsWaiting q (row k (requeue_all g qs t))
  unfolding requeue_all
  requeue_all-IsWaiting [] t k q a e = e
  requeue_all-IsWaiting (r ∷ qs) t k q a (time, e) =
      requeue_all-IsWaiting qs (put g (record r { status = waiting }) t).1 k q a.1
        (elim (row-put g (record r { status = waiting }) t k) [
          | inl same ↦ (time, same ∙ e)
          | inr (mine, new) ↦ (
            clock t,
            ground (arith, a.0 mine, overlay_again q (clock t) time (g.clock_positive t)),
          )
        ])

  module _ (reliable : Reliable) where
    requeue_all-listed :
        (qs : List WorkflowQueue) (t : Table) (q : WorkflowQueue)
        → is_nil q.task_id ≡ false
        → Agrees q.task_id q qs
        → row q.task_id t ≡ some q
        → Memᴰ q qs
        → IsWaiting q (row q.task_id (requeue_all g qs t))
    unfolding requeue_all
    requeue_all-listed [] t q n a e m = elim m [ ]
    requeue_all-listed (r ∷ qs) t q n a e (Memᴰ.head h) =
        requeue_all-IsWaiting qs (put g (record r { status = waiting }) t).1 q.task_id q a.1 (
          subst (λ x. IsWaiting q (row q.task_id (put g (record x { status = waiting }) t).1)) h
            (
              clock t,
              ground (
                arith,
                put_done (record q { status = waiting }) t n (reliable _ t),
                overlay_self q (clock t) (g.clock_positive t),
              ),
            ))
    requeue_all-listed (r ∷ qs) t q n a e (Memᴰ.tail m) =
        elim (row-put g (record r { status = waiting }) t q.task_id) [
          | inl same ↦
              requeue_all-listed qs (put g (record r { status = waiting }) t).1 q n a.1 (same ∙ e) m
          | inr (mine, new) ↦
              requeue_all-IsWaiting qs (put g (record r { status = waiting }) t).1 q.task_id q a.1
                (clock t, ground (arith, a.0 mine, overlay_self q (clock t) (g.clock_positive t)))
        ]

  agree :
      (t : Table) (q : WorkflowQueue) (qs : List WorkflowQueue)
      → row q.task_id t ≡ some q
      → All (λ r. (row r.task_id t ≡ some r) × (is_active r.status ≡ true)) qs
      → Agrees q.task_id q qs
  agree t q [] e h = tt
  agree t q (r ∷ qs) e h =
      (λ same. cc (subst (λ x. row x t ≡ some r) same h.0.0), agree t q qs e h.1)

  apart :
      (t : Table) (k : Text) (q : WorkflowQueue) (qs : List WorkflowQueue)
      → row k t ≡ some q
      → is_active q.status ≡ false
      → All (λ r. (row r.task_id t ≡ some r) × (is_active r.status ≡ true)) qs
      → All (λ r. r.task_id ≢ k) qs
  apart t k q [] e i h = tt
  apart t k q (r ∷ qs) e i h =
      (λ same. ground (arith, subst (λ x. row x t ≡ some r) same h.0.0), apart t k q qs e i h.1)

  -- After a restart on a store whose reads and writes succeed, every task with an id and an active
  -- status is waiting again; of its other modelled columns only the time of update has changed.
  pub init_queue-active :
      (t : Table) (qs : List WorkflowQueue) (q : WorkflowQueue)
      → Reliable
      → find_in is_active t ≡ done qs
      → is_nil q.task_id ≡ false
      → row q.task_id t ≡ some q
      → is_active q.status ≡ true
      → (time : ℕ) × (row q.task_id (init_queue g t) ≡ some (waiting_at time q))
  unfolding init_queue
  init_queue-active t qs q reliable f n e a =
      rw (f, init_queue)
        (requeue_all-listed reliable qs t q n (agree t q qs e (g.find_sound is_active t qs f)) e
          (g.find_complete is_active t qs q.task_id q f e a))

  -- A restart leaves a task whose status is not active as it is, whatever fails.
  pub init_queue-inactive :
      (t : Table) (k : Text) (q : WorkflowQueue)
      → row k t ≡ some q
      → is_active q.status ≡ false
      → row k (init_queue g t) ≡ some q
  unfolding init_queue
  init_queue-inactive t k q e i = elim (Outcome-cases (find_in is_active t)) [
    | inl (qs, f) ↦
        rw (f, init_queue)
          (requeue_all-other qs t k (apart t k q qs e i (g.find_sound is_active t qs f)) ∙ e)
    | inr (_, inl f) ↦ rw (f, init_queue) e
    | inr (_, inr f) ↦ rw (f, init_queue) e
  ]

  after_processing-error :
      (k : Text) (p : Processed × Table)
      → p.0 ≡ process_error
      → after_processing g false k p ≡ (compare_and_swap g k queued waiting p.1).1
  unfolding after_processing update_task_status
  after_processing-error k (processed, t) h = cc
  after_processing-error k (context_cancelled, t) h = cc
  after_processing-error k (process_error, t) h = refl

  -- A dispatch that fails gives its task back: if the context is not done, the
  -- processor ends with an error and leaves the row of the claimed task alone, and both status
  -- updates run, the row is waiting as before, with the time of update alone changed.
  pub claim_and_process_task-restores :
      (k : Text) (q : WorkflowQueue) (t : Table) (processor : Table → Processed × Table)
      → is_nil k ≡ false
      → row k t ≡ some q
      → q.status ≡ waiting
      → ((from to : Status) (now : ℕ) (u : Table)
          → (n : ℕ) × ((update_where k from to now u).0 ≡ done n))
      → ((u : Table) → ((processor u).0 ≡ process_error) × (row k (processor u).1 ≡ row k u))
      → ((claim_and_process_task g false k processor t).0 ≡ ran)
        × ((time : ℕ) × (row k (claim_and_process_task g false k processor t).1
              ≡ some (record q { update_time = time })))
  unfolding claim_and_process_task update_task_status
  claim_and_process_task-restores k q t processor n e w runs fails =
      let t₁ = (compare_and_swap g k waiting queued t).1 in
      let t₂ = (processor t₁).1 in
      let (n₁, d₁) = runs waiting queued (clock t) t in
      let (won, new) = swap-hit g k waiting queued t q n₁ n e w d₁ in
      let (failed, kept) = fails t₁ in
      let (n₂, d₂) = runs queued waiting (clock t₂) t₂ in
      let claimed = record q { status = queued; update_time = clock t } in
      let (back, old) = swap-hit g k queued waiting t₂ claimed n₂ n (kept ∙ new) refl d₂ in
      let same : waiting_at (clock t₂) q ≡ record q { update_time = clock t₂ } = ground arith in
      (
        rw won refl,
        (clock t₂, rw (won, after_processing-error k (processor t₁) failed) (old ∙ ap some same)),
      )
