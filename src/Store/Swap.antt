-- ===== src/Store/Swap.antt =====
-- The conditional update of a task's status, case by case.
use kube_min_cli.Base.{
  ℕ, is_nil, ◌≡◌, ◌≢◌, ◌⊎◌, inl, inr, refl, true, false, some, [], ◌∷◌, Text, text_eq, text_eq_refl,
  Option-cases, arith,
}
use kube_min_cli.Config.{Status}
use kube_min_cli.Model.{WorkflowQueue}
use kube_min_cli.Store.{
  Gorm, Outcome, done, not_found, failure, ok, compare_and_swap, swap_status, affected,
}

pub Outcome-cases {ℓ} :
    {A : Type ℓ} (o : Outcome A)
    → ((a : A) × (o ≡ done a)) ⊎ (((a : A) → o ≢ done a) × ((o ≡ not_found) ⊎ (o ≡ failure)))
Outcome-cases (done a) = inl (a, refl)
Outcome-cases not_found = inr (λ a h. cc, inl refl)
Outcome-cases failure = inr (λ a h. cc, inr refl)

module _ (g : Gorm) where
  open g use {Table, row, clock, update_where, where_row, where_count, where_kept}

  -- A swap that reports success found the row with the old status, and stored the new one.
  pub swap-true :
      (k : Text) (from to : Status) (t : Table)
      → (compare_and_swap g k from to t).0 ≡ ok true
      → (q : WorkflowQueue) × (row k t ≡ some q)
        × (q.status ≡ from)
        × (row k (compare_and_swap g k from to t).1
            ≡ some (record q { status = to; update_time = clock t }))
  unfolding compare_and_swap affected swap_status
  swap-true [] from to t h = cc
  swap-true (c ∷ cs) from to t h =
      elim (Outcome-cases (update_where (c ∷ cs) from to (clock t) t).0) [
        | inl (n, e) ↦ elim (Option-cases (row (c ∷ cs) t)) [
          | inl m ↦ absurd (ground (arith, where_count (c ∷ cs) from to (clock t) t n))
          | inr (q, m) ↦ (
            q,
            m,
            ground (arith, where_count (c ∷ cs) from to (clock t) t n),
            ground (
              arith,
              where_count (c ∷ cs) from to (clock t) t n,
              where_row (c ∷ cs) from to (clock t) t n (c ∷ cs) e,
              text_eq_refl (c ∷ cs),
            ),
          )
        ]
        | inr (_, e) ↦ absurd (ground arith)
      ]

  -- A swap that does not report success leaves the row.
  pub swap-kept :
      (k : Text) (from to : Status) (t : Table)
      → (compare_and_swap g k from to t).0 ≢ ok true
      → row k (compare_and_swap g k from to t).1 ≡ row k t
  unfolding compare_and_swap affected swap_status
  swap-kept [] from to t h = refl
  swap-kept (c ∷ cs) from to t h =
      elim (Outcome-cases (update_where (c ∷ cs) from to (clock t) t).0) [
        | inl (n, e) ↦ ground (
          arith,
          where_count (c ∷ cs) from to (clock t) t n e,
          where_row (c ∷ cs) from to (clock t) t n (c ∷ cs) e,
        )
        | inr (no_count, _) ↦ where_kept (c ∷ cs) from to (clock t) t (c ∷ cs) no_count
      ]

  -- No other row changes.
  pub swap-other :
      (k : Text) (from to : Status) (t : Table) (j : Text)
      → text_eq k j ≡ false
      → row j (compare_and_swap g k from to t).1 ≡ row j t
  unfolding compare_and_swap
  swap-other [] from to t j e = refl
  swap-other (c ∷ cs) from to t j e =
      elim (Outcome-cases (update_where (c ∷ cs) from to (clock t) t).0) [
        | inl (n, d) ↦ ground (arith, where_row (c ∷ cs) from to (clock t) t n j d)
        | inr (no_count, _) ↦ where_kept (c ∷ cs) from to (clock t) t j no_count
      ]

  -- A swap that finds the old status, and whose statement runs, stores the new one.
  pub swap-hit :
      (k : Text) (from to : Status) (t : Table) (q : WorkflowQueue) (n : ℕ)
      → is_nil k ≡ false
      → row k t ≡ some q
      → q.status ≡ from
      → (update_where k from to (clock t) t).0 ≡ done n
      → ((compare_and_swap g k from to t).0 ≡ ok true)
        × (row k (compare_and_swap g k from to t).1
            ≡ some (record q { status = to; update_time = clock t }))
  unfolding compare_and_swap affected swap_status
  swap-hit [] from to t q n e m o d = cc
  swap-hit (c ∷ cs) from to t q n e m o d = (
    ground (arith, where_count (c ∷ cs) from to (clock t) t n d),
    ground (arith, where_row (c ∷ cs) from to (clock t) t n (c ∷ cs) d, text_eq_refl (c ∷ cs)),
  )
