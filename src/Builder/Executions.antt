-- ===== src/Builder/Executions.antt =====
-- The executions of a whole workflow.
use kube_min_cli.Base.{
  ℕ, ◌+◌, ◌<◌, ◌≡◌, ◌≢◌, inl, inr, refl, ◌&&◌, Option, some, none, List, [], ◌∷◌, ◌++◌, Text,
  lookup, is_nil, arith, All, All-append, Bool-cases, ltb, length,
}
use kube_min_cli.Config.{WorkflowMode, unset_mode, step_by_step, is_parallel}
use kube_min_cli.Model.{WorkflowStep, WorkflowSubStep, WorkflowQueue, component_names}
use kube_min_cli.Buckets.{Buckets, new_job_buckets, buckets_empty, count_jobs}
use kube_min_cli.Buckets.Merge.{count-merge, empty_iff_count}
use kube_min_cli.Builder.Share.{Component}
use kube_min_cli.Builder.Component.{
  Env, build_jobs_for_component, merge_found, append_component_group,
}
use kube_min_cli.Builder.Steps.{
  StepExecution, default_mode, execution, Components, component_map, parallel_sub_steps,
  sequential_sub_steps, sequential_components, step_executions, steps_executions,
  generate_job_tasks,
}
use kube_min_cli.Builder.Placed.{AllPlaced, new-AllPlaced}
use kube_min_cli.Builder.Placement.{append_component_group-AllPlaced}

-- An execution with jobs, all of them placed, and a mode.
pub record IsExecution (task : WorkflowQueue) (x : StepExecution) : Type 0 where
  pub jobs_placed : AllPlaced task x.jobs
  pub has_jobs : 0 < count_jobs x.jobs
  pub has_mode : x.mode ≢ unset_mode

module _ (e : Env) (task : WorkflowQueue) (timeout : ℕ) where
  abbrev Sound : List StepExecution → Type 0
  Sound xs = All (IsExecution task) xs

  execution-Sound :
      (name : Text) (mode : WorkflowMode) (b : Buckets)
      → mode ≢ unset_mode
      → AllPlaced task b
      → Sound (execution name mode b)
  unfolding execution
  execution-Sound name mode b m a = elim (Bool-cases (buckets_empty b)) [
    | inl h ↦ rw (h, execution) tt
    | inr h ↦
        rw (h, execution)
          (
            record { jobs_placed = a; has_jobs = ground (arith, empty_iff_count b); has_mode = m },
            tt,
          )
  ]

  group-AllPlaced :
      (names : List Text) (m : Components e)
      → AllPlaced task (append_component_group e new_job_buckets names m task timeout)
  group-AllPlaced names m =
      append_component_group-AllPlaced task e timeout new_job_buckets names m (new-AllPlaced task)

  parallel-AllPlaced :
      (b : Buckets) (subs : List WorkflowSubStep) (m : Components e)
      → AllPlaced task b
      → AllPlaced task (parallel_sub_steps e b subs m task timeout)
  unfolding parallel_sub_steps
  parallel-AllPlaced b [] m a = a
  parallel-AllPlaced b (s ∷ subs) m a =
      parallel-AllPlaced
        (append_component_group e b (component_names s.name s.properties) m task timeout) subs m
        (append_component_group-AllPlaced task e timeout b (component_names s.name s.properties) m
          a)

  sub_steps-Sound :
      (subs : List WorkflowSubStep) (m : Components e)
      → Sound (sequential_sub_steps e subs m task timeout)
  unfolding sequential_sub_steps
  sub_steps-Sound [] m = tt
  sub_steps-Sound (s ∷ subs) m =
      All-append (IsExecution task) _ _
        (execution-Sound _ step_by_step _ (λ h. cc) (group-AllPlaced _ m)) (sub_steps-Sound subs m)

  components-Sound :
      (names : List Text) (m : Components e) → Sound (sequential_components e names m task timeout)
  unfolding sequential_components
  components-Sound [] m = tt
  components-Sound (n ∷ names) m =
      All-append (IsExecution task) _ _
        (execution-Sound n step_by_step _ (λ h. cc) (group-AllPlaced (n ∷ []) m))
        (components-Sound names m)

  default_mode-ne : (mode : WorkflowMode) → default_mode mode ≢ unset_mode
  unfolding default_mode
  default_mode-ne mode = ground arith

  step-Sound : (s : WorkflowStep) (m : Components e) → Sound (step_executions e s m task timeout)
  unfolding step_executions
  step-Sound s m = elim (Bool-cases (is_nil s.sub_steps)) [
    | inl plain ↦
        elim (Bool-cases (
          is_parallel (default_mode s.mode)
          && ltb 1 (length (component_names s.name s.properties)))) [
            | inl parallel ↦
                rw (plain, step_executions)
                  (rw parallel
                    (execution-Sound _ _ _ (default_mode-ne s.mode) (group-AllPlaced _ m)))
            | inr serial ↦ rw (plain, step_executions) (rw serial (components-Sound _ m))
          ]
    | inr nested ↦ elim (Bool-cases (is_parallel (default_mode s.mode))) [
      | inl parallel ↦
          rw (nested, step_executions)
            (rw parallel (
              execution-Sound _ _ _ (default_mode-ne s.mode)
                (parallel-AllPlaced new_job_buckets s.sub_steps m (new-AllPlaced task))))
      | inr serial ↦ rw (nested, step_executions) (rw serial (sub_steps-Sound s.sub_steps m))
    ]
  ]

  steps-Sound :
      (steps : List WorkflowStep) (m : Components e)
      → Sound (steps_executions e steps m task timeout)
  unfolding steps_executions
  steps-Sound [] m = tt
  steps-Sound (s ∷ steps) m =
      All-append (IsExecution task) _ _ (step-Sound s m) (steps-Sound steps m)

  -- Every execution that is generated has at least one job and a mode; each of its jobs belongs to
  -- the task, is queued or skipped with a timeout of 1200 seconds, and stands at the priority of
  -- its type: 0 for configuration, 1 for volumes, ingresses and RBAC objects, 10 for workloads and
  -- services.
  pub generate_job_tasks-IsExecution :
      (steps : Option (List WorkflowStep)) (components : Option (List (Component e.Properties)))
      → All (IsExecution task) (generate_job_tasks e steps components task timeout)
  unfolding generate_job_tasks
  generate_job_tasks-IsExecution none components = tt
  generate_job_tasks-IsExecution (some steps) none = tt
  generate_job_tasks-IsExecution (some steps) (some cs) = steps-Sound steps (component_map e cs [])

  -- The jobs of all executions.
  abbrev pub total_jobs : List StepExecution → ℕ
  total_jobs [] = 0
  total_jobs (x ∷ xs) = count_jobs x.jobs + total_jobs xs

  total-execution :
      (name : Text) (mode : WorkflowMode) (b : Buckets) (xs : List StepExecution)
      → total_jobs (execution name mode b ++ xs) ≡ count_jobs b + total_jobs xs
  unfolding execution
  total-execution name mode b xs = elim (Bool-cases (buckets_empty b)) [
    | inl h ↦ rw (h, execution) (ground (arith, empty_iff_count b))
    | inr h ↦ rw (h, execution) refl
  ]

  -- The jobs that one name stands for, none if no component has it.
  abbrev found_jobs : Option (Component e.Properties) → ℕ
  found_jobs none = 0
  found_jobs (some c) = count_jobs (build_jobs_for_component e c task timeout)

  count-merge_found :
      (b : Buckets) (c : Option (Component e.Properties))
      → count_jobs (merge_found e b c task timeout) ≡ count_jobs b + found_jobs c
  unfolding merge_found
  count-merge_found b none = omega arith
  count-merge_found b (some c) = count-merge b (build_jobs_for_component e c task timeout)

  abbrev sum_jobs : List Text → Components e → ℕ
  sum_jobs [] m = 0
  sum_jobs (n ∷ names) m = found_jobs (lookup n m) + sum_jobs names m

  count-group :
      (b : Buckets) (names : List Text) (m : Components e)
      → count_jobs (append_component_group e b names m task timeout)
        ≡ count_jobs b + sum_jobs names m
  unfolding append_component_group
  count-group b [] m = omega arith
  count-group b (n ∷ names) m = omega (
    arith,
    count-group (merge_found e b (lookup n m) task timeout) names m,
    count-merge_found b (lookup n m),
  )

  count-new : count_jobs new_job_buckets ≡ 0
  unfolding count_jobs new_job_buckets
  count-new = refl

  total-components :
      (names : List Text) (m : Components e)
      → total_jobs (sequential_components e names m task timeout) ≡ sum_jobs names m
  unfolding sequential_components
  total-components [] m = refl
  total-components (n ∷ names) m = omega (
    arith,
    total-execution n step_by_step
        (append_component_group e new_job_buckets (n ∷ []) m task timeout)
        (sequential_components e names m task timeout),
    count-group new_job_buckets (n ∷ []) m,
    count-new,
    total-components names m,
  )

  -- The components of a step get as many jobs one after another as they get in parallel: the mode
  -- decides the grouping alone.
  pub total-sequential_components :
      (names : List Text) (m : Components e)
      → total_jobs (sequential_components e names m task timeout)
        ≡ count_jobs (append_component_group e new_job_buckets names m task timeout)
  total-sequential_components names m =
      omega (arith, total-components names m, count-group new_job_buckets names m, count-new)
