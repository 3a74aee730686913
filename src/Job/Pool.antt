-- ===== src/Job/Pool.antt =====
-- `Pool.Run` and `Pool.work` of job.go as a step relation: the main loop hands the jobs over one by
-- one through an unbuffered channel, and `concurrency` workers take and run them. A job is its
-- index in the list, since the source shares pointers.
use kube_min_cli.Base.{
  ℕ, suc, ◌+◌, ◌≤◌, ◌<◌, ◌≡◌, ◌⊎◌, inl, inr, refl, ◌∙◌, ◌*◌, Bool-cases, Bool, true, false, ◌&&◌,
  ◌||◌, Option, some, none, List, [], ◌∷◌, ◌++◌, length, length-append, if◌then◌else◌, ◌==◌, arith,
}
use kube_min_cli.Config.{Status, completed}
use kube_min_cli.Job.{job_status_failed}

pub record PoolState : Type 0 where
  pub pending : List ℕ
  -- The job that the main loop is sending.
  pub offered : Option ℕ
  pub running : List ℕ
  pub finished : List (ℕ × Status)
  -- The jobs behind the `break` of the main loop.
  pub dropped : List ℕ
  -- `p.ctx.Err() != nil`
  pub stopped : Bool

unfoldable pub start : List ℕ → PoolState
start jobs = record {
  pending = jobs;
  offered = none;
  running = [];
  finished = [];
  dropped = [];
  stopped = false;
}

-- One step of the pool with `concurrency` workers.
pub data Step (concurrency : ℕ) (stop_on_failure : Bool) (s t : PoolState) : Type 0 where
  offer :
      (i : ℕ) (rest : List ℕ)
      → s.pending ≡ i ∷ rest
      → s.offered ≡ none
      → (stop_on_failure && s.stopped) ≡ false
      → t ≡ record s { pending = rest; offered = some i }
      → Step concurrency stop_on_failure s t
  break :
      s.offered ≡ none
      → (stop_on_failure && s.stopped) ≡ true
      → t ≡ record s { pending = []; dropped = s.pending ++ s.dropped }
      → Step concurrency stop_on_failure s t
  take_job :
      (i : ℕ)
      → s.offered ≡ some i
      → length s.running < concurrency
      → t ≡ record s { offered = none; running = i ∷ s.running }
      → Step concurrency stop_on_failure s t
  finish :
      (before after : List ℕ) (i : ℕ) (status : Status)
      → s.running ≡ before ++ (i ∷ after)
      → t ≡ record s {
        running = before ++ after;
        finished = (i, status) ∷ s.finished;
        stopped = s.stopped || (stop_on_failure && job_status_failed status);
      }
      → Step concurrency stop_on_failure s t
  -- The context of the workflow is cancelled from outside.
  cancel : t ≡ record s { stopped = true } → Step concurrency stop_on_failure s t

pub data Reach (concurrency : ℕ) (stop_on_failure : Bool) (s : PoolState) : PoolState → Type 0 where
  here : Reach concurrency stop_on_failure s s
  next :
      {t u : PoolState}
      → Reach concurrency stop_on_failure s t
      → Step concurrency stop_on_failure t u
      → Reach concurrency stop_on_failure s u

abbrev pub count : ℕ → List ℕ → ℕ
count i [] = 0
count i (j ∷ js) = let rest = count i js in if j == i then suc rest else rest

abbrev pub count_offered : ℕ → Option ℕ → ℕ
count_offered i none = 0
count_offered i (some j) = if j == i then 1 else 0

abbrev pub count_finished : ℕ → List (ℕ × Status) → ℕ
count_finished i [] = 0
count_finished i ((j, s) ∷ fs) = let rest = count_finished i fs in if j == i then suc rest else rest

-- How often job `i` stands anywhere in the pool.
abbrev places : ℕ → PoolState → ℕ
places i s =
    count i s.pending
    + count_offered i s.offered
    + count i s.running
    + count_finished i s.finished
    + count i s.dropped

count-append : (i : ℕ) (xs ys : List ℕ) → count i (xs ++ ys) ≡ count i xs + count i ys
count-append i [] ys = omega arith
count-append i (x ∷ xs) ys = ground (arith, count-append i xs ys)

abbrev pub IsDone : PoolState → Type 0
IsDone s = (s.pending ≡ []) × (s.offered ≡ none) × (s.running ≡ [])

abbrev pub is_offering : Option ℕ → ℕ
is_offering none = 0
is_offering (some i) = 1

-- What is left to do: three moves for a pending job, two for an offered one, one for a running one.
abbrev pub work : PoolState → ℕ
work s = 3 * length s.pending + 2 * is_offering s.offered + length s.running

module _ (concurrency : ℕ) (stop_on_failure : Bool) where
  Step-places :
      (i : ℕ) (s t : PoolState) → Step concurrency stop_on_failure s t → places i t ≡ places i s
  Step-places i s t (offer j rest p o b e) = rw (e, p, o) (ground arith)
  Step-places i s t (break o b e) = rw (e, count-append i s.pending s.dropped) (omega arith)
  Step-places i s t (take_job j o c e) = rw (e, o) (ground arith)
  Step-places i s t (finish before after j k r e) =
      rw (e, r) (ground (arith, count-append i before after, count-append i before (j ∷ after)))
  Step-places i s t (cancel e) = rw e refl

  -- No job is lost or run twice: in every state that the pool reaches each job stands exactly as
  -- often as in the list that it was given, be it pending, offered, running, finished or dropped.
  pub Reach-places :
      (i : ℕ) (jobs : List ℕ) {s : PoolState}
      → Reach concurrency stop_on_failure (start jobs) s
      → count i s.pending
          + count_offered i s.offered
          + count i s.running
          + count_finished i s.finished
          + count i s.dropped
        ≡ count i jobs
  unfolding start
  Reach-places i jobs here = omega arith
  Reach-places i jobs (next {t} {u} r st) = Step-places i t u st ∙ Reach-places i jobs r

  record Inv (s : PoolState) : Type 0 where
    capacity : length s.running ≤ concurrency
    drops : (stop_on_failure && s.stopped) ≡ false → s.dropped ≡ []

  Step-Inv : (s t : PoolState) → Step concurrency stop_on_failure s t → Inv s → Inv t
  Step-Inv s t (offer j rest p o b e) h = ground arith
  Step-Inv s t (break o b e) h = ground arith
  Step-Inv s t (take_job j o c e) h = ground arith
  Step-Inv s t (finish before after j k r e) h =
      ground (arith, length-append before after, length-append before (j ∷ after))
  Step-Inv s t (cancel e) h = ground arith

  Reach-Inv :
      (jobs : List ℕ) {s : PoolState} → Reach concurrency stop_on_failure (start jobs) s → Inv s
  unfolding start
  Reach-Inv jobs here = record { capacity = omega arith; drops = λ h. refl }
  Reach-Inv jobs (next {t} {u} r st) = Step-Inv t u st (Reach-Inv jobs r)

  -- Never more jobs run at once than there are workers, and a job is dropped only by a pool that
  -- stops on failure and has been cancelled.
  pub Reach-capacity :
      (jobs : List ℕ) {s : PoolState}
      → Reach concurrency stop_on_failure (start jobs) s
      → (length s.running ≤ concurrency)
        × ((s.dropped ≡ []) ⊎ ((stop_on_failure && s.stopped) ≡ true))
  Reach-capacity jobs {s} r =
      let h = Reach-Inv jobs r in
      (
        h.capacity,
        elim (Bool-cases (stop_on_failure && s.stopped)) [
          | inl b ↦ inr b
          | inr b ↦ inl (h.drops b)
        ],
      )

  abbrev Progress : PoolState → Type 0
  Progress s =
      IsDone s ⊎ ((t : PoolState) × Step concurrency stop_on_failure s t × (work t < work s))

  progress :
      (s : PoolState) (pending : List ℕ) (offered : Option ℕ) (running : List ℕ)
      → 0 < concurrency
      → s.pending ≡ pending
      → s.offered ≡ offered
      → s.running ≡ running
      → Progress s
  progress s p o (i ∷ rest) c ep eo er =
      inr (_, finish [] rest i completed er refl, rw er (omega arith))
  progress s p (some i) [] c ep eo er = inr (_, take_job i eo (rw er c) refl, rw eo (omega arith))
  progress s [] none [] c ep eo er = inl (ep, eo, er)
  progress s (i ∷ rest) none [] c ep eo er = elim (Bool-cases (stop_on_failure && s.stopped)) [
    | inl b ↦ inr (_, break eo b refl, rw ep (omega arith))
    | inr b ↦ inr (_, offer i rest ep eo b refl, rw (ep, eo) (omega arith))
  ]

  -- A pool with a worker never gets stuck: unless it is done, it has a step that leaves less work.
  pub pool_progress :
      (s : PoolState)
      → 0 < concurrency
      → IsDone s ⊎ ((t : PoolState) × Step concurrency stop_on_failure s t × (work t < work s))
  pool_progress s c = progress s s.pending s.offered s.running c refl refl refl

  -- No step makes more work.
  pub Step-work : (s t : PoolState) → Step concurrency stop_on_failure s t → work t ≤ work s
  Step-work s t (offer j rest p o b e) = rw (e, p, o) (omega arith)
  Step-work s t (break o b e) = rw e (omega arith)
  Step-work s t (take_job j o c e) = rw (e, o) (omega arith)
  Step-work s t (finish before after j k r e) =
      rw (e, r) (omega (arith, length-append before after, length-append before (j ∷ after)))
  Step-work s t (cancel e) = rw e (omega arith)

-- A pool that does not stop on failure and is done has finished every job that it was given.
pub pool_finishes_all :
    (concurrency i : ℕ) (jobs : List ℕ) (s : PoolState)
    → Reach concurrency false (start jobs) s
    → IsDone s
    → count_finished i s.finished ≡ count i jobs
pool_finishes_all concurrency i jobs s r d =
    let places = Reach-places concurrency false i jobs r in
    let drops = (Reach-capacity concurrency false jobs r).1 in
    elim drops [ inl none_dropped ↦ ground arith | inr b ↦ absurd (ground arith) ]
