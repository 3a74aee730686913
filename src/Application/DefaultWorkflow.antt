-- ===== src/Application/DefaultWorkflow.antt =====
-- The default workflow is a best one of its type.
use kube_min_cli.Base.{
  ℕ, ◌≡◌, refl, text_eq, text, Bool, true, false, not, ◌&&◌, List, [], ◌∷◌, Option, none, some,
  Text, all, is_nil, ◌||◌, ltb, ◌==◌, ap, if◌then◌else◌, arith, Bool-cases, inl, inr, ◌⊎◌,
}
use kube_min_cli.Application.WorkflowName.{
  Workflow, equal_fold, workflow_rank, is_better, challenge, pick_from, pick_default_workflow,
}

abbrev pub is_candidate : Workflow → Bool
is_candidate w = is_nil w.workflow_type || text_eq w.workflow_type (text "workflow")

abbrev pub In : Workflow → List Workflow → Type 0
In v [] = ⊥
In v (w ∷ ws) = (v ≡ w) ⊎ In v ws

module _ (fold : ℕ → ℕ) (desired_name desired_alias : Text) where
  -- The workflow has the name that is wished for, or the alias.
  unfoldable pub is_named : Workflow → Bool
  is_named w = not (is_nil desired_name) && equal_fold fold w.name desired_name

  unfoldable pub is_aliased : Workflow → Bool
  is_aliased w = not (is_nil desired_alias) && equal_fold fold w.alias desired_alias

  -- The first workflow was changed later, or at the same time and created later.
  abbrev pub is_newer : Workflow → Workflow → Bool
  is_newer w v =
      ltb v.update_time w.update_time
      || ((w.update_time == v.update_time) && ltb v.create_time w.create_time)

  -- The first workflow goes before the second one: by the name; where neither has the name, by the
  -- alias; and among those alike in this, by the times.
  unfoldable pub beats : Workflow → Workflow → Bool
  beats w v =
      if is_named w
      then not (is_named v) || is_newer w v
      else if is_named v
      then false
      else if is_aliased w
      then not (is_aliased v) || is_newer w v
      else not (is_aliased v) && is_newer w v

  is_better-beats :
      (w v : Workflow)
      → is_better
          (workflow_rank fold desired_name desired_alias w)
          w
          (workflow_rank fold desired_name desired_alias v)
          v
        ≡ beats w v
  unfolding beats workflow_rank is_named is_aliased
  is_better-beats w v = ground arith

  -- None of the workflows of the type goes before this one.
  abbrev pub unbeaten : Workflow → List Workflow → Bool
  unbeaten v = all λ w. not (is_candidate w && beats w v)

  later_wins : (b v r : Workflow) → beats v b ≡ true → beats v r ≡ false → beats b r ≡ false
  unfolding beats
  later_wins b v r h k = ground arith

  beats_irrefl : (w : Workflow) → beats w w ≡ false
  unfolding beats
  beats_irrefl w = ground arith

  challenge_lem :
      (best w : Workflow)
      → challenge fold desired_name desired_alias (some best) w
        ≡ (if is_candidate w && beats w best then some w else some best)
  unfolding challenge
  challenge_lem best w =
      ap (λ b. if is_candidate w && b then some w else some best) (is_better-beats w best)

  earlier_stays : (b v r : Workflow) → beats v b ≡ false → beats b r ≡ false → beats v r ≡ false
  unfolding beats
  earlier_stays b v r h k = ground arith

  -- The loop from a best workflow.
  record Picked (best : Workflow) (ws : List Workflow) (result : Option Workflow) : Type 0 where
    chosen : Workflow
    result_eq : result ≡ some chosen
    kept : beats best chosen ≡ false
    best_of : unbeaten chosen ws ≡ true
    candidate : is_candidate chosen ≡ true
    place : (chosen ≡ best) ⊎ In chosen ws

  pick_from-Picked :
      (best : Workflow) (ws : List Workflow)
      → is_candidate best ≡ true
      → Picked best ws (pick_from fold desired_name desired_alias (some best) ws)
  unfolding pick_from
  pick_from-Picked best [] c = record {
    chosen = best;
    result_eq = refl;
    kept = beats_irrefl best;
    best_of = refl;
    candidate = c;
    place = inl refl;
  }
  pick_from-Picked best (w ∷ ws) c = elim (Bool-cases (is_candidate w && beats w best)) [
    | inl h ↦
        let bw : beats w best ≡ true = ground arith in
        let r = pick_from-Picked w ws (ground arith) in
        record {
          chosen = r.chosen;
          result_eq = rw (challenge_lem best w) (rw h r.result_eq);
          kept = later_wins best w r.chosen bw r.kept;
          best_of = ground (arith, r.kept, r.best_of);
          candidate = r.candidate;
          place = inr r.place;
        }
    | inr h ↦
        let r = pick_from-Picked best ws c in
        record {
          chosen = r.chosen;
          result_eq = rw (challenge_lem best w) (rw h r.result_eq);
          kept = r.kept;
          best_of = ground (arith, r.best_of, earlier_stays best w r.chosen, r.kept);
          candidate = r.candidate;
          place = elim r.place [ inl e ↦ inl e | inr e ↦ inr (inr e) ];
        }
  ]

  -- The default workflow is one of the list of its type, and no other one of the type goes before it:
  -- none has the wished-for name while it has not; none has the wished-for alias while neither has the
  -- name and it has not the alias; and none that is like it in this was changed later, or at the same
  -- time and created later. There is no default workflow just when no workflow has the type.
  pub pick_default_workflow-best :
      (ws : List Workflow)
      → let result = pick_default_workflow fold ws desired_name desired_alias in
        ((result ≡ none) × (all (λ w. not (is_candidate w)) ws ≡ true))
        ⊎ ((v : Workflow) × (result ≡ some v)
            × In v ws
            × (is_candidate v ≡ true)
            × (unbeaten v ws ≡ true))
  unfolding pick_default_workflow pick_from challenge
  pick_default_workflow-best [] = inl (refl, refl)
  pick_default_workflow-best (w ∷ ws) = elim (Bool-cases (is_candidate w)) [
    | inl h ↦
        let r = pick_from-Picked w ws h in
        inr (r.chosen, rw h r.result_eq, r.place, r.candidate, ground (arith, r.kept, r.best_of))
    | inr h ↦ elim (pick_default_workflow-best ws) [
      | inl n ↦ inl (rw h n.0, ground (arith, n.1))
      | inr v ↦ inr (v.0, rw h v.1, inr v.2, v.3, ground (arith, v.4))
    ]
  ]
