-- ===== src/Worker/Backoff.antt =====
-- The waits between failed reads.
use kube_min_cli.Base.{
  ℕ, zero, suc, ◌*◌, ◌^◌, ◌≤◌, ◌<◌, ◌≡◌, refl, false, some, List, [], ◌∷◌, leb, arith, Option-cases,
  Bool-cases, inl, inr, ap, ◌∙◌,
}
use Prim.Native.Nat.{min}
use native.Mathlib.Nat.{mul-le-mul_left, mul-le-mul_right, mul_assoc}
use mathlib.Core.Option
use kube_min_cli.Worker.{
  worker_backoff_delay, WorkerConfig, WorkerState, Event, context_done, claim_failed, claimed,
  read_failed, read, start_worker, worker_round, work, reached,
}

-- For a minimum of at most the maximum, both below 2 ^ 62 nanoseconds: the delay doubles up to the
-- maximum.
pub worker_backoff_delay_lem :
    (d lo hi : ℕ) → lo ≤ d → d ≤ hi → hi < 2 ^ 62 → worker_backoff_delay d lo hi ≡ min (d * 2) hi
unfolding worker_backoff_delay
worker_backoff_delay_lem d lo hi a b c = ground arith

-- Doubling under a maximum and then scaling is scaling by twice as much under the maximum.
scaled : (d hi p : ℕ) → 0 < p → min (min (d * 2) hi * p) hi ≡ min (d * (2 * p)) hi
scaled d hi p pos =
    let grows : hi * 1 ≤ hi * p = mul-le-mul_left hi pos in
    let twice : d * 2 * p ≡ d * (2 * p) = mul_assoc d 2 p in
    elim (Bool-cases (leb (d * 2) hi)) [
      | inl below ↦ let same : min (d * 2) hi ≡ d * 2 = ground arith in rw (same, twice) refl
      | inr above ↦
          let same : min (d * 2) hi ≡ hi = ground arith in
          let more : hi * p ≤ d * 2 * p = mul-le-mul_right p (ground arith) in
          rw same (omega (arith, grows, more, twice))
    ]

double : (n : ℕ) → 2 * 2 ^ n ≡ 2 ^ suc n
double n = omega arith

pow_pos : (n : ℕ) → 0 < 2 ^ n
pow_pos zero = omega arith
pow_pos (suc n) = omega (arith, pow_pos n)

-- `n` reads that fail in a row, none of them interrupted.
abbrev pub failures : ℕ → List Event
failures zero = []
failures (suc n) = read_failed false ∷ failures n

-- The delay of a worker lies between the bounds.
abbrev InBounds : WorkerConfig → WorkerState → Type 0
InBounds c w = (c.backoff_min ≤ w.current_delay) × (w.current_delay ≤ c.backoff_max)

module _ (c : WorkerConfig) (ordered : c.backoff_min ≤ c.backoff_max)
    (small : c.backoff_max < 2 ^ 62) where
  round-InBounds :
      (w w' : WorkerState) (e : Event)
      → InBounds c w
      → (worker_round c w e).state ≡ some w'
      → InBounds c w'
  unfolding worker_round reached
  round-InBounds w w' context_done h e = cc
  round-InBounds w w' claim_failed h e = ground arith
  round-InBounds w w' (claimed ids) h e = ground arith
  round-InBounds w w' (read_failed done) h e =
      ground
        (arith, worker_backoff_delay_lem w.current_delay c.backoff_min c.backoff_max h.0 h.1 small)
  round-InBounds w w' (read ids) h e = ground arith

  work-InBounds :
      (w w' : WorkerState) (es : List Event) → InBounds c w → work c w es ≡ some w' → InBounds c w'
  unfolding work
  work-InBounds w w' [] h e = ground arith
  work-InBounds w w' (x ∷ es) h e = elim (Option-cases (worker_round c w x).state) [
    | inl gone ↦ absurd (ground arith)
    | inr (v, next) ↦ work-InBounds v w' es (round-InBounds w v x h next) (ground arith)
  ]

  -- Whatever a worker meets, the delay that it holds is at least the minimum and at most the maximum,
  -- for a minimum of at most the maximum and a maximum below 2 ^ 62 nanoseconds.
  pub work-delay :
      (w' : WorkerState) (es : List Event)
      → work c (start_worker c) es ≡ some w'
      → (c.backoff_min ≤ w'.current_delay) × (w'.current_delay ≤ c.backoff_max)
  unfolding start_worker
  work-delay w' es e = work-InBounds (start_worker c) w' es (omega arith) e

  no_limit : (n : ℕ) → c.max_read_failures ≡ 0 → reached c.max_read_failures n ≡ false
  unfolding reached
  no_limit n z = rw z refl

  failed_once :
      (w : WorkerState)
      → c.max_read_failures ≡ 0
      → InBounds c w
      → (worker_round c w (read_failed false)).state
        ≡ some (record w {
          read_failures = suc w.read_failures;
          current_delay = min (w.current_delay * 2) c.backoff_max;
        })
  unfolding worker_round
  failed_once w z h =
      rw
        (
          no_limit (suc w.read_failures) z,
          worker_backoff_delay_lem w.current_delay c.backoff_min c.backoff_max h.0 h.1 small,
        )
        refl

  work-next :
      (w v : WorkerState) (e : Event) (es : List Event)
      → (worker_round c w e).state ≡ some v
      → work c w (e ∷ es) ≡ work c v es
  unfolding work
  work-next w v e es h = ground arith

  work-failures :
      (n : ℕ) (w : WorkerState)
      → c.max_read_failures ≡ 0
      → InBounds c w
      → Option.map (λ (v : WorkerState). v.current_delay) (work c w (failures n))
        ≡ some (min (w.current_delay * 2 ^ n) c.backoff_max)
  work-failures zero w z h = unfold work in ap some (omega arith)
  work-failures (suc n) w z h =
      let w' = record w {
        read_failures = suc w.read_failures;
        current_delay = min (w.current_delay * 2) c.backoff_max;
      } in
      rw (work-next w w' (read_failed false) (failures n) (failed_once w z h)) (
        work-failures n w' z (omega arith, omega arith)
        ∙ ap some (
            scaled w.current_delay c.backoff_max (2 ^ n) (pow_pos n)
            ∙ ap (λ p. min (w.current_delay * p) c.backoff_max) (double n)))

  -- Without a limit on failures the worker outlives any number of failed reads in a row, and after
  -- `n` of them its delay is the minimum doubled `n` times, or the maximum where that is less, for a
  -- minimum of at most the maximum and a maximum below 2 ^ 62 nanoseconds.
  pub work-backoff :
      (n : ℕ)
      → c.max_read_failures ≡ 0
      → Option.map (λ (v : WorkerState). v.current_delay) (work c (start_worker c) (failures n))
        ≡ some (min (c.backoff_min * 2 ^ n) c.backoff_max)
  unfolding start_worker
  work-backoff n z = work-failures n (start_worker c) z (omega arith)
