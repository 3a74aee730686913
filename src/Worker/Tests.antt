-- ===== src/Worker/Tests.antt =====
-- Workers with small settings.
use kube_min_cli.Base.{◌*◌, ◌^◌, ◌<◌, ◌≡◌, ◌≢◌, refl, false, some, none, List, [], ◌∷◌, arith, ◌⊎◌}
use Prim.Native.Nat.{min}
use mathlib.Core.Option
use kube_min_cli.Worker.{
  WorkerConfig, WorkerState, Event, claim_failed, read_failed, read, start_worker, worker_round,
  work, reached, worker_backoff_delay,
}
use kube_min_cli.Worker.Backoff.{failures, work-backoff}
use kube_min_cli.Worker.Resilience.{work-unlimited, work-failures_bounded}

abbrev unlimited : WorkerConfig
unlimited = record {
  backoff_min = 200;
  backoff_max = 1000;
  max_read_failures = 0;
  max_claim_failures = 0;
}

abbrev limited : WorkerConfig
limited = record unlimited { max_read_failures = 2; max_claim_failures = 2 }

abbrev bad_day : List Event
bad_day = read_failed false ∷ claim_failed ∷ read (1 ∷ []) ∷ read_failed false ∷ []

abbrev after_bad_day : WorkerState
after_bad_day = record { current_delay = 400; read_failures = 1; claim_failures = 1 }

work-backoff_example :
    Option.map
      (λ (v : WorkerState). v.current_delay)
      (work unlimited (start_worker unlimited) (failures 4))
    ≡ some (min (200 * 2 ^ 4) 1000)
work-backoff_example = work-backoff unlimited (omega arith) (omega arith) 4 refl

work-unlimited_example : work unlimited (start_worker unlimited) bad_day ≢ none
work-unlimited_example = work-unlimited unlimited bad_day refl refl (tt, (tt, (tt, (tt, tt))))

work-failures_bounded_example :
    ((limited.max_read_failures ≡ 0) ⊎ (after_bad_day.read_failures < 2))
    × ((limited.max_claim_failures ≡ 0) ⊎ (after_bad_day.claim_failures < 2))
unfolding work worker_round start_worker reached worker_backoff_delay
work-failures_bounded_example = work-failures_bounded limited after_bad_day bad_day refl

-- The second read in a row that fails ends a worker with a limit of two.
gives_up : work limited (start_worker limited) (failures 2) ≡ none
unfolding work worker_round start_worker reached worker_backoff_delay
gives_up = refl
