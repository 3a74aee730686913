-- ===== src/Job/Sequence.antt =====
-- Jobs that run one after another.
use kube_min_cli.Base.{◌≡◌, refl, Bool, true, List, [], ◌∷◌, ◌++◌, map, all, arith, not}
use kube_min_cli.Model.{JobTask}
use kube_min_cli.Job.{RunEnv, run_job, run_sequence, ends_sequence}

module _ (e : JobTask → RunEnv) where
  abbrev ran : JobTask → JobTask
  ran j = (run_job (e j) j).0

  abbrev pub fails : JobTask → Bool
  fails j = ends_sequence (run_job (e j) j)

  -- If no job fails or crashes, every job has run.
  pub run_sequence-all :
      (js : List JobTask)
      → all (λ j. not (fails j)) js ≡ true
      → run_sequence e js ≡ map (λ j. (run_job (e j) j).0) js
  unfolding run_sequence
  run_sequence-all [] h = refl
  run_sequence-all (j ∷ js) h = ground (arith, run_sequence-all js)

  -- The first job that fails, or that crashes the process, ends the sequence: the jobs before it and itself have run, and the
  -- jobs behind it are as they were, never started.
  pub run_sequence_stops :
      (before after : List JobTask) (j : JobTask)
      → all (λ k. not (fails k)) before ≡ true
      → fails j ≡ true
      → run_sequence e (before ++ (j ∷ after))
        ≡ map (λ k. (run_job (e k) k).0) before ++ ((run_job (e j) j).0 ∷ after)
  unfolding run_sequence
  run_sequence_stops [] after j h f = rw f
  run_sequence_stops (k ∷ before) after j h f = ground (arith, run_sequence_stops before after j)
