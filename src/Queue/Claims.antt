-- ===== src/Queue/Claims.antt =====
-- Competing dispatchers: who may run a waiting task.
use kube_min_cli.Base.{
  ℕ, ◌≤◌, ◌≡◌, ◌≢◌, ◌⊎◌, inl, inr, refl, sym, subst, ◌∙◌, is_nil, Bool, true, false, some, List, [],
  ◌∷◌, Text, text_eq, text_eq_iff, Bool-cases, Option-cases, if◌then◌else◌, arith, All, suc,
}
use mathlib.Core.Option
use kube_min_cli.Config.{waiting, queued}
use kube_min_cli.Model.{WorkflowQueue}
use kube_min_cli.Store.{
  Gorm, Result, ok, err, put, stamped, overlay, compare_and_swap, update_task_status,
}
use kube_min_cli.Store.Swap.{swap-true, swap-kept, swap-other, Outcome-cases}
use kube_min_cli.Queue.{mark_task_status}

-- What the servers do to the table: a claim of a task, or a write of a row.
pub data Action : Type 0 where
  claims : Text → Action
  writes : WorkflowQueue → Action

-- A write that sends task `k` back to waiting.
abbrev pub Requeues : Text → Action → Type 0
Requeues k (claims j) = ⊥
Requeues k (writes q) = (q.task_id ≡ k) × (q.status ≡ waiting)

abbrev is_won : Result Bool → Bool
is_won (ok won) = won
is_won (err e) = false

module _ (g : Gorm) where
  open g use {Table, row, clock, updates, updates_row, updates_kept}

  act : Action → Table → Table
  act (claims k) t = (mark_task_status g k waiting queued t).1
  act (writes q) t = (put g q t).1

  -- Does this action claim task `k`?
  wins : Text → Action → Table → Bool
  wins k (claims j) t =
      if text_eq j k then is_won (mark_task_status g j waiting queued t).0 else false
  wins k (writes q) t = false

  -- How often task `k` is claimed over a sequence of actions.
  unfoldable pub times_claimed : Text → List Action → Table → ℕ
  unfolding act wins
  times_claimed k [] t = 0
  times_claimed k (a ∷ later) t =
      let rest = times_claimed k later (act a t) in if wins k a t then suc rest else rest

  abbrev NotWaiting : Text → Table → Type 0
  NotWaiting k t = (q : WorkflowQueue) → row k t ≡ some q → q.status ≢ waiting

  -- What a write leaves under a key.
  pub row-put :
      (q : WorkflowQueue) (t : Table) (j : Text)
      → (row j (put g q t).1 ≡ row j t)
        ⊎ ((q.task_id ≡ j) × (row j (put g q t).1 ≡ Option.map (overlay (stamped g q t)) (row j t)))
  unfolding put
  row-put q t j = elim (Bool-cases (is_nil q.task_id)) [
    | inl e ↦ inl (rw (e, put) refl)
    | inr e ↦ elim (Outcome-cases (updates (stamped g q t) t).0) [
      | inl (tt, d) ↦ elim (Bool-cases (text_eq q.task_id j)) [
        | inl same ↦
            inr ((text_eq_iff _ _).0 same, ground (arith, updates_row (stamped g q t) t j d))
        | inr other ↦ inl (ground (arith, updates_row (stamped g q t) t j d))
      ]
      | inr (no_count, _) ↦ inl (ground (arith, updates_kept (stamped g q t) t j (no_count tt)))
    ]
  ]

  overlay-NotWaiting :
      (q r : WorkflowQueue)
      → q.status ≢ waiting
      → r.status ≢ waiting
      → (overlay q r).status ≢ waiting
  unfolding overlay
  overlay-NotWaiting q r hq hr = ground arith

  put-NotWaiting :
      (k : Text) (q : WorkflowQueue) (t : Table)
      → ¬ Requeues k (writes q)
      → NotWaiting k t
      → NotWaiting k (put g q t).1
  put-NotWaiting k q t h n r e = elim (row-put q t k) [
    | inl same ↦ n r (sym same ∙ e)
    | inr (mine, new) ↦ elim (Option-cases (row k t)) [
      | inl m ↦ absurd (ground (arith))
      | inr (old, m) ↦
          λ w. overlay-NotWaiting (stamped g q t) old (λ x. h (mine, x)) (n old m) (ground arith)
    ]
  ]

  not_swapped :
      (k : Text) (t : Table) → NotWaiting k t → (compare_and_swap g k waiting queued t).0 ≢ ok true
  not_swapped k t n h = let (q, m, w, _) = swap-true g k waiting queued t h in n q m w

  swap-NotWaiting :
      (k : Text) (t : Table)
      → NotWaiting k t
      → NotWaiting k (compare_and_swap g k waiting queued t).1
  swap-NotWaiting k t n q r = n q (sym (swap-kept g k waiting queued t (not_swapped k t n)) ∙ r)

  swapped-NotWaiting :
      (k : Text) (t : Table)
      → (compare_and_swap g k waiting queued t).0 ≡ ok true
      → NotWaiting k (compare_and_swap g k waiting queued t).1
  swapped-NotWaiting k t h q r w =
      let (old, m, o, new) = swap-true g k waiting queued t h in ground arith

  lost : (k : Text) (a : Action) (t : Table) → NotWaiting k t → wins k a t ≡ false
  unfolding wins mark_task_status update_task_status
  lost k (writes q) t n = refl
  lost k (claims j) t n = elim (Bool-cases (text_eq j k)) [
    | inl same ↦
        let e = (text_eq_iff j k).0 same in
        ground (arith, not_swapped j t (subst (λ x. NotWaiting x t) (sym e) n))
    | inr other ↦ ground arith
  ]

  act-NotWaiting :
      (k : Text) (a : Action) (t : Table) → ¬ Requeues k a → NotWaiting k t → NotWaiting k (act a t)
  unfolding act mark_task_status update_task_status
  act-NotWaiting k (writes q) t h n = put-NotWaiting k q t h n
  act-NotWaiting k (claims j) t h n = elim (Bool-cases (text_eq j k)) [
    | inl same ↦
        let e = (text_eq_iff j k).0 same in
        subst (λ x. NotWaiting x (compare_and_swap g j waiting queued t).1) e
          (swap-NotWaiting j t (subst (λ x. NotWaiting x t) (sym e) n))
    | inr other ↦ λ q r. n q (sym (swap-other g j waiting queued t k other) ∙ r)
  ]

  won-NotWaiting : (k : Text) (a : Action) (t : Table) → wins k a t ≡ true → NotWaiting k (act a t)
  unfolding wins act mark_task_status update_task_status
  won-NotWaiting k (writes q) t h = cc
  won-NotWaiting k (claims j) t h = elim (Bool-cases (text_eq j k)) [
    | inl same ↦
        subst (λ x. NotWaiting x (compare_and_swap g j waiting queued t).1)
          ((text_eq_iff j k).0 same) (swapped-NotWaiting j t (ground arith))
    | inr other ↦ absurd (ground arith)
  ]

  never :
      (k : Text) (later : List Action) (t : Table)
      → All (λ a. ¬ Requeues k a) later
      → NotWaiting k t
      → times_claimed k later t ≡ 0
  unfolding times_claimed
  never k [] t h n = refl
  never k (a ∷ later) t h n =
      rw (lost k a t n) (never k later (act a t) h.1 (act-NotWaiting k a t h.0 n))

  -- Over any sequence of claims and of writes of rows, by any servers, of which no write sends the
  -- task back to waiting, at most one claim of the task succeeds.
  pub times_claimed-le-one :
      (k : Text) (later : List Action) (t : Table)
      → All (λ a. ¬ Requeues k a) later
      → times_claimed k later t ≤ 1
  unfolding times_claimed
  times_claimed-le-one k [] t h = omega arith
  times_claimed-le-one k (a ∷ later) t h = elim (Bool-cases (wins k a t)) [
    | inl won ↦ rw won (omega (arith, never k later (act a t) h.1 (won-NotWaiting k a t won)))
    | inr not_won ↦ rw not_won (times_claimed-le-one k later (act a t) h.1)
  ]
