-- ===== src/Worker.antt =====
-- StartWorker, workerBackoffDelay and ackDispatchMessages of
-- pkg/apiserver/event/workflow/dispatcher.go, and the settings of workflow_state.go: the loop of a
-- worker that reads dispatch messages. One round of the loop is `worker_round`; which branch of the
-- `select` it takes and what the queue answers is the round's `Event`.
-- A duration is the bit pattern of an int64 number of nanoseconds. Messages are their ids; what is
-- done with a message is in Queue.antt, and every processed message is acknowledged.
pub mod Backoff
pub mod Resilience
pub mod Tests
use kube_min_cli.Base.{
  ℕ, ◌+◌, ◌*◌, ◌%◌, ◌^◌, suc, Bool, true, false, ◌&&◌, Option, some, none, List, [], ◌∷◌, ltb, leb,
  is_nil, if◌then◌else◌,
}

-- `a < b` on int64 bit patterns.
abbrev pub slt : ℕ → ℕ → Bool
slt a b = ltb ((a + 2 ^ 63) % 2 ^ 64) ((b + 2 ^ 63) % 2 ^ 64)

unfoldable pub worker_backoff_delay : ℕ → ℕ → ℕ → ℕ
worker_backoff_delay current min max =
    if slt current min
    then min
    else (let next = (current * 2) % 2 ^ 64 in if slt max next then max else next)

-- A duration setting of the configuration counts where it is positive.
unfoldable pub positive_or : Option ℕ → ℕ → ℕ
positive_or none default = default
positive_or (some d) default = if slt 0 d then d else default

-- `workerMaxReadFailures`: a configuration counts as it is. A negative limit counts as 0 here.
unfoldable pub limit_or : Option ℕ → ℕ → ℕ
limit_or none default = default
limit_or (some n) default = n

pub record WorkerConfig : Type 0 where
  pub backoff_min : ℕ
  pub backoff_max : ℕ
  pub max_read_failures : ℕ
  pub max_claim_failures : ℕ

pub record WorkerState : Type 0 where
  pub current_delay : ℕ
  pub read_failures : ℕ
  pub claim_failures : ℕ

-- What a round meets. A failed read waits, and the context may be done before the wait is over.
pub data Event : Type 0 where
  context_done : Event
  claim_failed : Event
  claimed : List ℕ → Event
  read_failed : Bool → Event
  read : List ℕ → Event

-- The state for the next round, `none` where the worker returns; the ids that are acknowledged, if
-- any; and the wait, if any.
pub record Round : Type 0 where
  pub state : Option WorkerState
  pub acks : List ℕ
  pub wait : Option ℕ

unfoldable pub start_worker : WorkerConfig → WorkerState
start_worker c = record { current_delay = c.backoff_min; read_failures = 0; claim_failures = 0 }

-- `max > 0 && failures >= max`
unfoldable pub reached : ℕ → ℕ → Bool
reached max failures = ltb 0 max && leb max failures

unfoldable pub worker_round : WorkerConfig → WorkerState → Event → Round
unfolding reached worker_backoff_delay
worker_round c w context_done = record { state = none; acks = []; wait = none }
worker_round c w claim_failed =
    let failures = suc w.claim_failures in
    record {
      state =
          if reached c.max_claim_failures failures
          then none
          else some (record w { claim_failures = failures });
      acks = [];
      wait = none;
    }
worker_round c w (claimed ids) = record {
  state = some (record w { claim_failures = 0; current_delay = c.backoff_min });
  acks = ids;
  wait = none;
}
worker_round c w (read_failed done) =
    let failures = suc w.read_failures in
    let delay = worker_backoff_delay w.current_delay c.backoff_min c.backoff_max in
    record {
      state =
          if done
          then none
          else if reached c.max_read_failures failures
          then none
          else some (record w { read_failures = failures; current_delay = delay });
      acks = [];
      wait = some delay;
    }
worker_round c w (read ids) = record {
  state = some (record w { read_failures = 0; current_delay = c.backoff_min });
  acks = ids;
  wait = none;
}

-- The loop over the rounds that the worker meets: its state at the end, `none` once it returned.
unfoldable pub work : WorkerConfig → WorkerState → List Event → Option WorkerState
unfolding worker_round
work c w [] = some w
work c w (e ∷ es) = elim (worker_round c w e).state [ none ↦ none | some w' ↦ work c w' es ]
