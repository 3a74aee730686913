-- ===== src/Job/Single.antt =====
-- What holds of one run of a job.
use kube_min_cli.Base.{
  ℕ, zero, suc, ◌+◌, ◌≡◌, ◌≢◌, inl, inr, refl, Bool, true, false, not, ◌&&◌, ◌||◌, Option, some,
  none, List, [], ◌∷◌, ◌++◌, if◌then◌else◌, arith, Bool-cases, ap, ◌∙◌,
}
use kube_min_cli.Config.{
  Status, passed, skipped, prepare, running, completed, timeout, failed, cancelled,
}
use kube_min_cli.Model.{JobTask}
use kube_min_cli.Job.{
  status_error, canceled, other_error, RunOutcome, returned, panicked, Effect, watched, acked,
  cleaned, saved, released, crashed, RunEnv, Ended, job_status_failed, init_job_ctl, fail_with,
  run_body, clean_failed, recover_body, after_run, start_job, run_job, cleaned_times, end_job,
  with_watch, run_by_status,
}

-- How often `Clean` is called.
abbrev pub cleanings : List Effect → ℕ
cleanings [] = 0
cleanings (cleaned ∷ fx) = 1 + cleanings fx
cleanings (watched ∷ fx) = cleanings fx
cleanings (acked s ∷ fx) = cleanings fx
cleanings (saved s ∷ fx) = cleanings fx
cleanings (released ∷ fx) = cleanings fx
cleanings (crashed ∷ fx) = cleanings fx

-- The statuses that are saved.
abbrev pub saves : List Effect → List Status
saves [] = []
saves (saved s ∷ fx) = s ∷ saves fx
saves (cleaned ∷ fx) = saves fx
saves (watched ∷ fx) = saves fx
saves (acked s ∷ fx) = saves fx
saves (released ∷ fx) = saves fx
saves (crashed ∷ fx) = saves fx

-- A run that ends well: no error, and no failure status left in the job.
abbrev pub went_well : RunOutcome → Bool
went_well (returned s t none) = not (job_status_failed s)
went_well (returned s t (some e)) = false
went_well (panicked t) = false

cleanings-append : (fx gx : List Effect) → cleanings (fx ++ gx) ≡ cleanings fx + cleanings gx
cleanings-append [] gx = omega arith
cleanings-append (cleaned ∷ fx) gx = omega (arith, cleanings-append fx gx)
cleanings-append (watched ∷ fx) gx = cleanings-append fx gx
cleanings-append (acked s ∷ fx) gx = cleanings-append fx gx
cleanings-append (saved s ∷ fx) gx = cleanings-append fx gx
cleanings-append (released ∷ fx) gx = cleanings-append fx gx
cleanings-append (crashed ∷ fx) gx = cleanings-append fx gx

saves_released : (fx : List Effect) → saves (fx ++ (released ∷ [])) ≡ saves fx
saves_released [] = refl
saves_released (saved s ∷ fx) = ap (λ ss. s ∷ ss) (saves_released fx)
saves_released (cleaned ∷ fx) = saves_released fx
saves_released (watched ∷ fx) = saves_released fx
saves_released (acked s ∷ fx) = saves_released fx
saves_released (released ∷ fx) = saves_released fx
saves_released (crashed ∷ fx) = saves_released fx

cleanings-with_watch : (e : RunEnv) (fx : List Effect) → cleanings (with_watch e fx) ≡ cleanings fx
cleanings-with_watch e fx = ground (arith, cleanings-append fx (released ∷ []))

saves-with_watch : (e : RunEnv) (fx : List Effect) → saves (with_watch e fx) ≡ saves fx
saves-with_watch e fx = ground (arith, saves_released fx)

pub run_by_status-start :
    (s : Status) (e : RunEnv) (j : JobTask)
    → s ≢ passed
    → s ≢ skipped
    → run_by_status s e j ≡ start_job e j
run_by_status-start s e j p k = ground arith

abbrev pub started : RunEnv → JobTask → JobTask
started e j = record j { status = prepare; error = []; start_time = e.now }

abbrev pub run_panics : RunOutcome → Bool
run_panics (panicked t) = true
run_panics (returned s t e) = false

abbrev pub is_some {ℓ} : {A : Type ℓ} → Option A → Bool
is_some none = false
is_some (some a) = true

-- How often `Clean` is called: not behind a run that goes well, twice where the call behind a run that
-- returned panics, and once otherwise.
abbrev pub calls_made : RunEnv → RunOutcome → ℕ
calls_made e o =
    if went_well o then 0 else if is_some (e.clean 0) && not (run_panics o) then 2 else 1

-- The last call of `Clean` does not panic.
abbrev pub survives : RunEnv → RunOutcome → Bool
survives e o =
    went_well o
    || not (is_some (e.clean (if run_panics o then 0 else 1)))
    || (not (run_panics o) && not (is_some (e.clean 0)))

after_run-calls :
    (e : RunEnv) (j : JobTask) (o : RunOutcome)
    → ((after_run e j o).calls ≡ calls_made e o)
      × ((after_run e j o).has_crashed ≡ not (survives e o))
unfolding after_run run_body clean_failed recover_body job_status_failed
after_run-calls e j (returned s t none) = (ground arith, ground arith)
after_run-calls e j (returned s t (some err)) = (ground arith, ground arith)
after_run-calls e j (panicked t) = (ground arith, ground arith)

cleanings-cleaned_times :
    (n : ℕ) (fx : List Effect) → cleanings (cleaned_times n fx) ≡ n + cleanings fx
cleanings-cleaned_times zero fx = omega arith
cleanings-cleaned_times (suc n) fx = omega (arith, cleanings-cleaned_times n fx)

saves-cleaned_times : (n : ℕ) (fx : List Effect) → saves (cleaned_times n fx) ≡ saves fx
saves-cleaned_times zero fx = refl
saves-cleaned_times (suc n) fx = saves-cleaned_times n fx

end_job-cleanings : (e : RunEnv) (n : Ended) → cleanings (end_job e n).1 ≡ n.calls
end_job-cleanings e n = elim (Bool-cases n.has_crashed) [
  | inl h ↦ rw h (omega (arith, cleanings-cleaned_times n.calls (crashed ∷ [])))
  | inr h ↦ rw h (
      omega (arith, cleanings-cleaned_times n.calls (acked n.job.status ∷ saved n.job.status ∷ [])))
]

end_job-saves :
    (e : RunEnv) (n : Ended)
    → saves (end_job e n).1 ≡ (if n.has_crashed then [] else (end_job e n).0.status ∷ [])
end_job-saves e n = elim (Bool-cases n.has_crashed) [
  | inl h ↦ rw h (saves-cleaned_times n.calls (crashed ∷ []))
  | inr h ↦ rw h (saves-cleaned_times n.calls (acked n.job.status ∷ saved n.job.status ∷ []))
]

start_job-end :
    (e : RunEnv) (j : JobTask)
    → e.has_store ≡ true
    → init_job_ctl e j ≡ true
    → start_job e j ≡ end_job e (after_run e (started e j) (e.run (started e j)))
unfolding start_job
start_job-end e j store i = rw (store, i) refl

run_job-end :
    (e : RunEnv) (j : JobTask)
    → j.status ≢ passed
    → j.status ≢ skipped
    → e.has_store ≡ true
    → init_job_ctl e j ≡ true
    → let done = end_job e (after_run e (started e j) (e.run (started e j))) in
      run_job e j ≡ (done.0, with_watch e done.1)
unfolding run_job
run_job-end e j p s store i =
    rw (run_by_status-start j.status e j p s, start_job-end e j store i) refl

-- A job that is started with a store and a controller calls `Clean` not at all if its run goes well,
-- and once if it ends in an error, a failure status or a panic; but twice if the run returned and
-- the first call panics. One status is saved, the final one, unless the last call of `Clean`
-- panics, which saves none.
pub run_job-cleans :
    (e : RunEnv) (j : JobTask)
    → j.status ≢ passed
    → j.status ≢ skipped
    → e.has_store ≡ true
    → init_job_ctl e j ≡ true
    → (cleanings (run_job e j).1 ≡ calls_made e (e.run (started e j)))
      × (saves (run_job e j).1
          ≡ (if survives e (e.run (started e j)) then (run_job e j).0.status ∷ [] else []))
run_job-cleans e j p s store i =
    let o = e.run (started e j) in
    let n = after_run e (started e j) o in
    let (calls, crash) = after_run-calls e (started e j) o in
    rw (run_job-end e j p s store i) (
      cleanings-with_watch e (end_job e n).1 ∙ end_job-cleanings e n ∙ calls,
      saves-with_watch e (end_job e n).1
          ∙ end_job-saves e n
          ∙ if_not n.has_crashed (survives e o) ((end_job e n).0.status ∷ []) crash,
    )
  where
    if_not :
        (b c : Bool) (x : List Status) → b ≡ not c → (if b then [] else x) ≡ (if c then x else [])
    if_not b c x h = ground (arith, h)

-- The status that follows from how a run ends, case by case.
abbrev pub final_status : RunOutcome → Status
final_status (returned prepare t none) = completed
final_status (returned running t none) = completed
final_status (returned s t none) = s
final_status (returned s t (some (status_error k m))) = k
final_status (returned s t (some (canceled m))) = cancelled
final_status (returned cancelled t (some (other_error m))) = cancelled
final_status (returned timeout t (some (other_error m))) = timeout
final_status (returned s t (some (other_error m))) = failed
final_status (panicked m) = failed

after_run-final_status :
    (e : RunEnv) (j : JobTask) (o : RunOutcome)
    → e.clean 0 ≡ none
    → (after_run e j o).job.status ≡ final_status o
unfolding after_run run_body clean_failed recover_body fail_with job_status_failed
after_run-final_status e j (returned s t none) c = ground arith
after_run-final_status e j (returned s t (some (status_error k m))) c = ground arith
after_run-final_status e j (returned s t (some (canceled m))) c = ground arith
after_run-final_status e j (returned s t (some (other_error m))) c = ground arith
after_run-final_status e j (panicked m) c = ground arith

end_job-status : (e : RunEnv) (n : Ended) → (end_job e n).0.status ≡ n.job.status
end_job-status e n = ground arith

-- The final status of a job that is started with a store and a controller, where the first call of
-- `Clean`, if there is one, does not panic: `completed` for a run without an error that left it in
-- preparation or running, and else the status that the run left; the status of a `StatusError`;
-- `cancelled` for a cancelled context; for any other error `cancelled` or `timeout` where the run
-- left these, and else `failed`; and `failed` for a panic.
pub run_job-final_status :
    (e : RunEnv) (j : JobTask)
    → j.status ≢ passed
    → j.status ≢ skipped
    → e.has_store ≡ true
    → init_job_ctl e j ≡ true
    → e.clean 0 ≡ none
    → (run_job e j).0.status ≡ final_status (e.run (started e j))
run_job-final_status e j p s store i c =
    let o = e.run (started e j) in
    rw (run_job-end e j p s store i)
      (end_job-status e (after_run e (started e j) o) ∙ after_run-final_status e (started e j) o c)
