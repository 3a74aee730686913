-- ===== src/Buckets.antt =====
-- The maps from priority to jobs of pkg/apiserver/event/workflow/job_builder.go: newJobBuckets,
-- mergeJobBuckets, bucketsEmpty, countJobs, sortedPriorities and determineStepConcurrency.
-- A map with int keys is an association list, the first entry of a key counting. The source ranges
-- over such a map in any order; here it is the order of the list.
pub mod Merge
pub mod Tests
use kube_min_cli.Base.{
  ℕ, ◌+◌, Bool, true, false, ◌&&◌, List, [], ◌∷◌, ◌++◌, map, length, is_nil, leb, ltb, ◌==◌,
  if◌then◌else◌,
}
use kube_min_cli.Config.{
  WorkflowMode, is_parallel, priority_max_high, priority_high, priority_normal, priority_low,
}
use kube_min_cli.Model.{JobTask}

abbrev pub Buckets : Type 0
Buckets = List (ℕ × List JobTask)

unfoldable pub new_job_buckets : Buckets
new_job_buckets =
    (priority_max_high, []) ∷ (priority_high, []) ∷ (priority_normal, []) ∷ (priority_low, []) ∷ []

-- `buckets[priority]`
unfoldable pub bucket : ℕ → Buckets → List JobTask
bucket p [] = []
bucket p ((q, jobs) ∷ b) = if q == p then jobs else bucket p b

-- `buckets[priority] = append(buckets[priority], jobs...)`
unfoldable pub append_bucket : ℕ → List JobTask → Buckets → Buckets
append_bucket p new [] = (p, new) ∷ []
append_bucket p new ((q, jobs) ∷ b) =
    if q == p then (q, jobs ++ new) ∷ b else (q, jobs) ∷ append_bucket p new b

unfoldable pub merge_job_buckets : Buckets → Buckets → Buckets
merge_job_buckets dst [] = dst
merge_job_buckets dst ((p, jobs) ∷ src) =
    merge_job_buckets (if is_nil jobs then dst else append_bucket p jobs dst) src

unfoldable pub buckets_empty : Buckets → Bool
buckets_empty [] = true
buckets_empty ((p, jobs) ∷ b) = is_nil jobs && buckets_empty b

unfoldable pub count_jobs : Buckets → ℕ
count_jobs [] = 0
count_jobs ((p, jobs) ∷ b) = length jobs + count_jobs b

abbrev pub keys : Buckets → List ℕ
keys [] = []
keys ((p, jobs) ∷ b) = p ∷ keys b

unfoldable pub insert_sorted : ℕ → List ℕ → List ℕ
insert_sorted p [] = p ∷ []
insert_sorted p (q ∷ qs) = if leb p q then p ∷ q ∷ qs else q ∷ insert_sorted p qs

unfoldable pub sort_priorities : List ℕ → List ℕ
unfolding insert_sorted
sort_priorities [] = []
sort_priorities (p ∷ ps) = insert_sorted p (sort_priorities ps)

unfoldable pub sorted_priorities : Buckets → List ℕ
unfolding sort_priorities
sorted_priorities b = sort_priorities (keys b)

-- The limit is an int in the source; a limit below 1, negative ones included, is 0 here.
unfoldable pub determine_step_concurrency : WorkflowMode → ℕ → ℕ → ℕ
determine_step_concurrency mode job_count sequential_limit =
    if job_count == 0
    then 0
    else if is_parallel mode
    then job_count
    else (let limit = if ltb sequential_limit 1 then 1 else sequential_limit in
        if ltb job_count limit then job_count else limit)
