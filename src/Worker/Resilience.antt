-- ===== src/Worker/Resilience.antt =====
-- When a worker gives up.
use kube_min_cli.Base.{
  ℕ, ◌<◌, ◌≡◌, ◌≢◌, true, false, some, none, List, [], ◌∷◌, All, arith, Option-cases, inl, inr, ◌⊎◌,
  refl, zero, suc,
}
use kube_min_cli.Worker.{
  WorkerConfig, WorkerState, Event, context_done, claim_failed, claimed, read_failed, read,
  start_worker, worker_round, work, reached,
}

-- An event that the context does not end.
abbrev pub Undisturbed : Event → Type 0
Undisturbed context_done = ⊥
Undisturbed (read_failed true) = ⊥
Undisturbed _ = Unit {0}

-- The failures since the last success stay below a limit that is set.
record IsBelow (c : WorkerConfig) (w : WorkerState) : Type 0 where
  reads : 0 < c.max_read_failures → w.read_failures < c.max_read_failures
  claims : 0 < c.max_claim_failures → w.claim_failures < c.max_claim_failures

zero_or : (max n : ℕ) → (0 < max → n < max) → (max ≡ 0) ⊎ (n < max)
zero_or zero n h = inl refl
zero_or (suc max) n h = inr (h (omega arith))

module _ (c : WorkerConfig) where
  -- Without limits on failures no round ends the worker.
  round_goes_on :
      (w : WorkerState) (e : Event)
      → c.max_read_failures ≡ 0
      → c.max_claim_failures ≡ 0
      → Undisturbed e
      → (worker_round c w e).state ≢ none
  unfolding worker_round reached
  round_goes_on w context_done r k u = absurd u
  round_goes_on w claim_failed r k u = λ e. ground arith
  round_goes_on w (claimed ids) r k u = λ e. cc
  round_goes_on w (read_failed true) r k u = absurd u
  round_goes_on w (read_failed false) r k u = λ e. ground arith
  round_goes_on w (read ids) r k u = λ e. cc

  work_goes_on :
      (w : WorkerState) (es : List Event)
      → c.max_read_failures ≡ 0
      → c.max_claim_failures ≡ 0
      → All Undisturbed es
      → work c w es ≢ none
  unfolding work
  work_goes_on w [] r k u = λ e. cc
  work_goes_on w (x ∷ es) r k u = elim (Option-cases (worker_round c w x).state) [
    | inl gone ↦ absurd (round_goes_on w x r k u.0 gone)
    | inr (v, next) ↦ rw (next, work) (work_goes_on v es r k u.1)
  ]

  -- With both limits 0 a worker runs until its context is done, whatever fails.
  pub work-unlimited :
      (es : List Event)
      → c.max_read_failures ≡ 0
      → c.max_claim_failures ≡ 0
      → All Undisturbed es
      → work c (start_worker c) es ≢ none
  work-unlimited es r k u = work_goes_on (start_worker c) es r k u

  round-IsBelow :
      (w w' : WorkerState) (e : Event)
      → IsBelow c w
      → (worker_round c w e).state ≡ some w'
      → IsBelow c w'
  unfolding worker_round reached
  round-IsBelow w w' context_done b h = cc
  round-IsBelow w w' claim_failed b h = ground arith
  round-IsBelow w w' (claimed ids) b h = ground arith
  round-IsBelow w w' (read_failed done) b h = ground arith
  round-IsBelow w w' (read ids) b h = ground arith

  work-IsBelow :
      (w w' : WorkerState) (es : List Event) → IsBelow c w → work c w es ≡ some w' → IsBelow c w'
  unfolding work
  work-IsBelow w w' [] b h = ground arith
  work-IsBelow w w' (x ∷ es) b h = elim (Option-cases (worker_round c w x).state) [
    | inl gone ↦ absurd (ground arith)
    | inr (v, next) ↦ work-IsBelow v w' es (round-IsBelow w v x b next) (ground arith)
  ]

  -- A worker that is still running has fewer reads in a row behind it that failed than the limit
  -- says, where it is set, and likewise fewer claims.
  pub work-failures_bounded :
      (w' : WorkerState) (es : List Event)
      → work c (start_worker c) es ≡ some w'
      → ((c.max_read_failures ≡ 0) ⊎ (w'.read_failures < c.max_read_failures))
        × ((c.max_claim_failures ≡ 0) ⊎ (w'.claim_failures < c.max_claim_failures))
  unfolding start_worker
  work-failures_bounded w' es h =
      let b = work-IsBelow (start_worker c) w' es (record { reads = λ p. p; claims = λ p. p }) h in
      (
        zero_or c.max_read_failures w'.read_failures b.reads,
        zero_or c.max_claim_failures w'.claim_failures b.claims,
      )
