-- ===== src/Application/Synced.antt =====
-- The steps of the first workflow behind an update of the version.
use kube_min_cli.Base.{
  ◌≡◌, refl, ap, ◌∙◌, Bool, not, ◌&&◌, ◌||◌, List, [], ◌∷◌, ◌++◌, map, Text, text_eq, member,
  member_same, any, arith,
}
use kube_min_cli.Model.{WorkflowStep}
use kube_min_cli.Naming.{Unicode, to_lower}
use kube_min_cli.Application.Version.{filter_steps, new_step, sync_workflow_steps}

module _ (u : Unicode) where
  -- Whether a step has the lower-case name.
  abbrev pub names_step : Text → List WorkflowStep → Bool
  names_step k = any λ (s : WorkflowStep). text_eq (to_lower u s.name) k

  names_step-append :
      (k : Text) (xs ys : List WorkflowStep)
      → names_step k (xs ++ ys) ≡ (names_step k xs || names_step k ys)
  names_step-append k [] ys = refl
  names_step-append k (x ∷ xs) ys = ground (arith, names_step-append k xs ys)

  names_step-filter_steps :
      (k : Text) (gone : List Text) (steps : List WorkflowStep)
      → names_step k (filter_steps u gone steps) ≡ (names_step k steps && not (member k gone))
  names_step-filter_steps k gone [] = refl
  names_step-filter_steps k gone (s ∷ ss) =
      ground (arith, names_step-filter_steps k gone ss, member_same (to_lower u s.name) k gone)

  names_step-new_step :
      (k : Text) (added : List Text)
      → names_step k (map (new_step u) added) ≡ member k (map (to_lower u) added)
  names_step-new_step k [] = refl
  names_step-new_step k (n ∷ ns) =
      ap (λ b. text_eq (to_lower u n) k || b) (names_step-new_step k ns)

  -- A name, up to case, names a step of the synchronised workflow just when it named one before and
  -- is not among the removed ones, or is among the added ones.
  pub names_step-sync_workflow_steps :
      (k : Text) (added removed : List Text) (steps : List WorkflowStep)
      → names_step k (sync_workflow_steps u added removed steps) ≡ (
          (names_step k steps && not (member k (map (to_lower u) removed)))
          || member k (map (to_lower u) added))
  unfolding sync_workflow_steps
  names_step-sync_workflow_steps k added removed steps =
      let gone = map (to_lower u) removed in
      names_step-append k (filter_steps u gone steps) (map (new_step u) added)
      ∙ ground (arith, names_step-filter_steps k gone steps, names_step-new_step k added)
