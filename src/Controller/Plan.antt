-- ===== src/Controller/Plan.antt =====
-- Which jobs a run hands to RunJobs, in which order, and where it ends.
use kube_min_cli.Base.{ℕ, ◌≡◌, not, Option, some, none, List, [], ◌∷◌, ◌++◌, length, ◌⊎◌, All}
use kube_min_cli.Config.{completed, skipped, passed, WorkflowMode, is_parallel}
use kube_min_cli.Model.{JobTask}
use kube_min_cli.Buckets.{Buckets, bucket, determine_step_concurrency}
use kube_min_cli.Builder.Steps.{StepExecution}
use kube_min_cli.Controller.{Ctl, RunJobs}

abbrev pub Batch : Type 0
Batch = WorkflowMode × List JobTask

-- The jobs of one priority, if there are any.
abbrev pub part : WorkflowMode → List JobTask → List Batch
part mode [] = []
part mode (j ∷ js) = (mode, j ∷ js) ∷ []

abbrev parts : WorkflowMode → Buckets → List ℕ → List Batch
parts mode b [] = []
parts mode b (p ∷ ps) = part mode (bucket p b) ++ parts mode b ps

-- What there is to run: execution by execution; of one, configuration and secrets (priority 0), then
-- the additional objects (1), then the workloads (10), then the services (20).
abbrev pub plan : List StepExecution → List Batch
plan [] = []
plan (x ∷ xs) = parts x.mode x.jobs (0 ∷ 1 ∷ 10 ∷ 20 ∷ []) ++ plan xs

abbrev pub Succeeded : JobTask → Type 0
Succeeded j = (j.status ≡ completed) ⊎ ((j.status ≡ skipped) ⊎ (j.status ≡ passed))

abbrev pub FirstFailure : JobTask → List JobTask → Type 0
FirstFailure j jobs =
    (before : List JobTask) × (after : List JobTask) × (jobs ≡ before ++ (j ∷ after))
    × All Succeeded before
    × (¬ Succeeded j)

module _ (run_jobs : RunJobs) (limit : ℕ) where
  -- The jobs of a batch as RunJobs leaves them.
  abbrev pub ended : Batch → List JobTask
  ended (mode, js) =
      (run_jobs (determine_step_concurrency mode (length js) limit) (not (is_parallel mode)) js).0

  -- A run of batches: each is started behind one whose jobs have all succeeded, and where a job of it
  -- has not, no further batch is started and the first such job is the result.
  abbrev pub IsRun : List Batch → List (List JobTask) → Option JobTask → Type 0
  IsRun [] started result = (started ≡ []) × (result ≡ none)
  IsRun (b ∷ bs) started result =
      (All Succeeded (ended b)
        × ((later : List (List JobTask)) × (started ≡ b.1 ∷ later) × IsRun bs later result))
      ⊎ ((j : JobTask) × (started ≡ b.1 ∷ []) × (result ≡ some j) × FirstFailure j (ended b))

  -- What part of a run adds to the batches that were started before it.
  abbrev Runs : List Batch → Ctl → Option JobTask × Ctl → Type 0
  Runs todo c r =
      (started : List (List JobTask)) × (r.1.batches ≡ c.batches ++ started)
      × IsRun todo started r.0
