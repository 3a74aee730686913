-- ===== src/Job/Tests.antt =====
-- Jobs and pools at concrete inputs.
use kube_min_cli.Base.{
  ◌+◌, ◌≤◌, ◌<◌, ◌≡◌, ◌≢◌, ◌⊎◌, refl, true, false, ◌&&◌, some, none, [], ◌∷◌, text, text_eq, length,
  if◌then◌else◌, arith, ◌==◌,
}
use kube_min_cli.Naming.{Unicode, trim_space}
use kube_min_cli.Builder.Share.{ShareConfig, is_enabled, apply_share_labels}
use kube_min_cli.Job.Shared.{share_info_from_labels}
use kube_min_cli.Job.Resolved.{share_info-apply_share_labels}
use kube_min_cli.Config.{share_ignore, passed, skipped, queued, completed, failed, running, deploy}
use kube_min_cli.Model.{JobTask}
use kube_min_cli.Buckets.Tests.{some_job}
use kube_min_cli.Job.{
  RunEnv, RunOutcome, returned, panicked, other_error, init_job_ctl, run_job, start_job, after_run,
  run_body, clean_failed, recover_body,
}
use kube_min_cli.Job.Single.{
  cleanings, saves, calls_made, survives, started, run_job-cleans, run_job-final_status,
}
use kube_min_cli.Job.Pool.{
  PoolState, start, Step, Reach, here, next, offer, take_job, finish, count, count_offered,
  count_finished, IsDone, work, Reach-places, Reach-capacity, pool_progress,
}

abbrev web_job : JobTask
web_job = record some_job { job_type = deploy }

abbrev db_job : JobTask
db_job = record web_job { name = text "db" }

-- An environment whose controller ends as given.
abbrev env : RunOutcome → RunEnv
env o = record {
  task_id = text "task-1";
  watch_ok = true;
  now = 5;
  later = 9;
  has_store = true;
  has_client = true;
  run = λ j. o;
  clean = λ n. none;
  reason = [];
}

abbrev crash : RunEnv
crash = env (panicked (text "nil map"))

abbrev fine : RunEnv
fine = env (returned running [] none)

abbrev refused : RunEnv
refused = env (returned running [] (some (other_error (text "denied"))))

queued≢passed : queued ≢ passed
queued≢passed e = cc

queued≢skipped : queued ≢ skipped
queued≢skipped e = cc

-- The first call of `Clean` panics, and is made again by the recovery.
abbrev clumsy : RunEnv
clumsy = record refused { clean = λ n. if n == 0 then some (text "no client") else none }

run_job-cleans_example :
    (cleanings (run_job clumsy web_job).1 ≡ calls_made clumsy (clumsy.run (started clumsy web_job)))
    × (saves (run_job clumsy web_job).1 ≡ (
        if survives clumsy (clumsy.run (started clumsy web_job))
        then (run_job clumsy web_job).0.status ∷ []
        else []))
unfolding init_job_ctl
run_job-cleans_example = run_job-cleans clumsy web_job queued≢passed queued≢skipped refl refl

run_job-final_status_example : (run_job refused web_job).0.status ≡ failed
unfolding init_job_ctl
run_job-final_status_example =
    run_job-final_status refused web_job queued≢passed queued≢skipped refl refl refl

-- A panic is stored as a failure, cleaned up once.
crash_fails : (run_job crash web_job).0.status ≡ failed
unfolding run_job start_job init_job_ctl after_run run_body clean_failed recover_body
crash_fails = refl

abbrev db_refused : JobTask → RunEnv
db_refused j = if text_eq j.name (text "db") then refused else fine

-- Two jobs and two workers: both are taken, job 0 fails, job 1 completes.
abbrev offered_first : PoolState
offered_first = record (start (0 ∷ 1 ∷ [])) { pending = 1 ∷ []; offered = some 0 }

abbrev running_first : PoolState
running_first = record offered_first { offered = none; running = 0 ∷ [] }

abbrev offered_second : PoolState
offered_second = record running_first { pending = []; offered = some 1 }

abbrev running_both : PoolState
running_both = record offered_second { offered = none; running = 1 ∷ 0 ∷ [] }

abbrev first_failed : PoolState
first_failed = record running_both { running = 1 ∷ []; finished = (0, failed) ∷ [] }

abbrev both_done : PoolState
both_done = record first_failed { running = []; finished = (1, completed) ∷ (0, failed) ∷ [] }

Reach-running_both : Reach 2 false (start (0 ∷ 1 ∷ [])) running_both
unfolding start
Reach-running_both =
    next
      (next
        (next (next here (offer 0 (1 ∷ []) refl refl refl refl))
          (take_job 0 refl (omega arith) refl))
        (offer 1 [] refl refl refl refl))
      (take_job 1 refl (omega arith) refl)

Reach-both_done : Reach 2 false (start (0 ∷ 1 ∷ [])) both_done
unfolding start
Reach-both_done =
    next (next Reach-running_both (finish (1 ∷ []) [] 0 failed refl refl))
      (finish [] [] 1 completed refl refl)

Reach-places_example :
    count 1 running_both.pending
      + count_offered 1 running_both.offered
      + count 1 running_both.running
      + count_finished 1 running_both.finished
      + count 1 running_both.dropped
    ≡ count 1 (0 ∷ 1 ∷ [])
Reach-places_example = Reach-places 2 false 1 (0 ∷ 1 ∷ []) Reach-running_both

Reach-capacity_example :
    (length running_both.running ≤ 2)
    × ((running_both.dropped ≡ []) ⊎ ((false && running_both.stopped) ≡ true))
Reach-capacity_example = Reach-capacity 2 false (0 ∷ 1 ∷ []) Reach-running_both

pool_progress_example :
    IsDone running_both
    ⊎ ((t : PoolState) × Step 2 true running_both t × (work t < work running_both))
pool_progress_example = pool_progress 2 true running_both (omega arith)

abbrev ascii : Unicode
ascii = record { lower = λ c. c; is_space = λ c. c == 32 }

abbrev shared_web : ShareConfig
shared_web = record { strategy = share_ignore; name = text "web" }

share_info-apply_share_labels_example :
    share_info_from_labels ascii
      (apply_share_labels ((text "kubemin-share-name", text "old") ∷ []) shared_web)
    ≡ (text "web", share_ignore)
unfolding is_enabled trim_space
share_info-apply_share_labels_example =
    share_info-apply_share_labels ascii (λ c h. ground arith)
      ((text "kubemin-share-name", text "old") ∷ []) shared_web refl refl refl
