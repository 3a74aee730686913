-- ===== src/Job.antt =====
-- pkg/apiserver/event/workflow/job/job.go: running one job (runJob), a list of jobs one after
-- another (RunJobs with concurrency 1), and the worker pool (Pool).
pub mod Single
pub mod Sequence
pub mod Pool
pub mod Shared
pub mod Resolved
pub mod Tests
use kube_min_cli.Base.{
  ℕ, zero, suc, Bool, true, false, ◌&&◌, ◌||◌, not, Option, some, none, List, [], ◌∷◌, ◌++◌, Text,
  text, is_nil, if◌then◌else◌, ◌==◌,
}
use kube_min_cli.Config.{
  Status, passed, skipped, prepare, running, completed, failed, cancelled, timeout, reject, JobType,
  untyped,
}
use kube_min_cli.Model.{JobTask}

-- An error of a job controller, with its text: a `StatusError`, `context.Canceled`, or another.
pub data RunError : Type 0 where
  status_error : Status → Text → RunError
  canceled : Text → RunError
  other_error : Text → RunError

-- How a controller's `Run` ends: the status and the error text that it leaves in the job, and the
-- error that it returns; or a panic.
pub data RunOutcome : Type 0 where
  returned : Status → Text → Option RunError → RunOutcome
  panicked : Text → RunOutcome

-- What happens around a job, in order. `saved` is `SaveInfo` with the job's status; `crashed` is a
-- panic that leaves `runJob`, and ends the process.
pub data Effect : Type 0 where
  watched : Effect
  acked : Status → Effect
  cleaned : Effect
  saved : Status → Effect
  crashed : Effect
  released : Effect

-- What one call of `runJob` meets: the task id of the context, whether the cancellation watcher
-- starts, the clock, whether the store is there and the client, what `Run` does, how each call of
-- `Clean` ends, by its number (with the text of a panic, or none), and the reason of a cancellation.
-- The text of a panic is that of the recovered value.
pub record RunEnv : Type 0 where
  pub task_id : Text
  pub watch_ok : Bool
  pub now : ℕ
  pub later : ℕ
  pub has_store : Bool
  pub has_client : Bool
  pub run : JobTask → RunOutcome
  pub clean : ℕ → Option Text
  pub reason : Text

unfoldable pub job_status_failed : Status → Bool
job_status_failed cancelled = true
job_status_failed failed = true
job_status_failed timeout = true
job_status_failed reject = true
job_status_failed _ = false

-- `initJobCtl` gives a controller for every type of job but unknown ones.
unfoldable pub init_job_ctl : RunEnv → JobTask → Bool
init_job_ctl e j = elim j.job_type [ untyped ↦ false | _ ↦ e.has_client ]

abbrev pub or_else : Text → Text → Text
or_else t fallback = if is_nil t then fallback else t

abbrev pub error_text : RunError → Text
error_text (status_error s t) = t
error_text (canceled t) = t
error_text (other_error t) = t

-- The status and the error text after `Run` returned an error.
abbrev pub keep_failure : Status → Status
keep_failure failed = failed
keep_failure cancelled = cancelled
keep_failure timeout = timeout
keep_failure _ = failed

unfoldable pub fail_with : RunEnv → JobTask → RunError → JobTask
fail_with e j (status_error s t) = record j { status = s; error = or_else j.error t }
fail_with e j (canceled t) = record j {
  status = cancelled;
  error = if is_nil e.reason then or_else j.error t else e.reason;
}
fail_with e j (other_error t) = record j {
  status = keep_failure j.status;
  error = or_else j.error t;
}

abbrev pub complete : Status → Status
complete prepare = completed
complete running = completed
complete s = s

-- `runJob` between `Run` and its end: the job, `cleaned`, the calls of `Clean` so far, and the panic
-- that unwinds it, if there is one.
pub record Body : Type 0 where
  pub job : JobTask
  pub cleaned : Bool
  pub calls : ℕ
  pub panic : Option Text

abbrev pub body_of : JobTask → Option Text → Body
body_of j p = record { job = j; cleaned = false; calls = 0; panic = p }

-- A call of `Clean`, with `cleaned` as it is set behind it unless the call panics.
abbrev pub call_clean : RunEnv → Bool → Body → Body
call_clean e flag b = elim (e.clean b.calls) [
  | none ↦ record { job = b.job; cleaned = flag; calls = suc b.calls; panic = none }
  | some t ↦ record { job = b.job; cleaned = b.cleaned; calls = suc b.calls; panic = some t }
]

abbrev pub fail_body : RunEnv → RunError → Body → Body
fail_body e err b = elim b.panic [
  | none ↦ record {
    job = fail_with e b.job err;
    cleaned = b.cleaned;
    calls = b.calls;
    panic = none;
  }
  | some t ↦ b
]

-- `Run` and the handling of its error. What the job is while a panic unwinds is not observed.
unfoldable pub run_body : RunEnv → JobTask → RunOutcome → Body
unfolding fail_with
run_body e j (returned s t none) = body_of (record j { status = complete s; error = t }) none
run_body e j (returned s t (some err)) =
    let b = body_of (record j { status = s; error = t }) none in
    fail_body e err (if not b.cleaned then call_clean e true b else b)
run_body e j (panicked t) = body_of j (some t)

-- The last statement of `runJob`.
unfoldable pub clean_failed : RunEnv → Body → Body
clean_failed e b = elim b.panic [
  | none ↦ if not b.cleaned && job_status_failed b.job.status then call_clean e b.cleaned b else b
  | some t ↦ b
]

-- How `runJob` ends: `crashed` is a panic in the deferred function.
pub record Ended : Type 0 where
  pub job : JobTask
  pub calls : ℕ
  pub has_crashed : Bool

-- The recovery of the deferred function, with the text of the panic, behind its call of `Clean`.
abbrev pub recovered : Text → Body → Ended
recovered t b = elim b.panic [
  | none ↦ record {
    job = record b.job { status = failed; error = text "job panic: " ++ t };
    calls = b.calls;
    has_crashed = false;
  }
  | some again ↦ record { job = b.job; calls = b.calls; has_crashed = true }
]

unfoldable pub recover_body : RunEnv → Body → Ended
recover_body e b = elim b.panic [
  | none ↦ record { job = b.job; calls = b.calls; has_crashed = false }
  | some t ↦
      let unwound = record b { panic = none } in
      recovered t (if not b.cleaned then call_clean e true unwound else unwound)
]

-- The job after `Run` returned or panicked.
unfoldable pub after_run : RunEnv → JobTask → RunOutcome → Ended
unfolding run_body clean_failed recover_body
after_run e j o = recover_body e (clean_failed e (run_body e j o))

abbrev pub cleaned_times : ℕ → List Effect → List Effect
cleaned_times zero fx = fx
cleaned_times (suc n) fx = cleaned ∷ cleaned_times n fx

abbrev pub with_watch : RunEnv → List Effect → List Effect
with_watch e fx =
    if not (is_nil e.task_id) && e.watch_ok then watched ∷ (fx ++ (released ∷ [])) else fx

abbrev pub or_time : ℕ → ℕ → ℕ
or_time t now = if t == 0 then now else t

-- A job marked as skipped is recorded and not run.
unfoldable pub skip_job : RunEnv → JobTask → JobTask × List Effect
unfolding init_job_ctl
skip_job e j =
    let j' = record j {
      error = [];
      start_time = or_time j.start_time e.now;
      end_time = or_time j.end_time e.now;
    } in
    (j', acked skipped ∷ (if e.has_store && init_job_ctl e j then saved skipped ∷ [] else []))

-- The deferred function's end: the time, the callback and `SaveInfo`, unless there was a crash.
abbrev pub end_job : RunEnv → Ended → JobTask × List Effect
end_job e n =
    if n.has_crashed then (n.job, acked prepare ∷ cleaned_times n.calls (crashed ∷ [])) else (
      record n.job { end_time = e.later },
      acked prepare ∷ cleaned_times n.calls (acked n.job.status ∷ saved n.job.status ∷ []),
    )

unfoldable pub start_job : RunEnv → JobTask → JobTask × List Effect
unfolding init_job_ctl after_run
start_job e j =
    let j₁ = record j { status = prepare; error = []; start_time = e.now } in
    if not e.has_store
    then (j₁, acked prepare ∷ [])
    else if init_job_ctl e j
    then end_job e (after_run e j₁ (e.run j₁))
    else (
      record j₁ {
        status = failed;
        error = text "failed to initialize job controller for job: " ++ j.name;
        end_time = e.later;
      },
      acked prepare ∷ acked failed ∷ [],
    )

abbrev pub run_by_status : Status → RunEnv → JobTask → JobTask × List Effect
run_by_status passed e j = (j, [])
run_by_status skipped e j = skip_job e j
run_by_status _ e j = start_job e j

unfoldable pub run_job : RunEnv → JobTask → JobTask × List Effect
unfolding skip_job start_job
run_job e j = let (j', fx) = run_by_status j.status e j in (j', with_watch e fx)

abbrev pub crashes : List Effect → Bool
crashes [] = false
crashes (crashed ∷ fx) = true
crashes (watched ∷ fx) = crashes fx
crashes (acked s ∷ fx) = crashes fx
crashes (cleaned ∷ fx) = crashes fx
crashes (saved s ∷ fx) = crashes fx
crashes (released ∷ fx) = crashes fx

-- A job that fails, or that crashes the process, is the last one.
unfoldable pub ends_sequence : JobTask × List Effect → Bool
ends_sequence r = job_status_failed r.0.status || crashes r.1

-- `RunJobs` with concurrency 1. The environment of each job is a function of the job.
unfoldable pub run_sequence : (JobTask → RunEnv) → List JobTask → List JobTask
unfolding run_job
run_sequence e [] = []
run_sequence e (j ∷ js) =
    let rest = run_sequence e js in
    let r = run_job (e j) j in if ends_sequence r then r.0 ∷ js else r.0 ∷ rest
