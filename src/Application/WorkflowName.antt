-- ===== src/Application/WorkflowName.antt =====
-- pkg/apiserver/domain/service/application.go: names of workflows, and which workflow of an
-- application is the default one. `fold` is the simple case folding of Unicode's code points, by
-- which `strings.EqualFold` compares. A time is a number; the zero time is 0.
use kube_min_cli.Base.{
  ℕ, zero, suc, Bool, false, not, ◌&&◌, ◌||◌, List, [], ◌∷◌, ◌++◌, map, Option, none, some, Text,
  text, is_nil, text_eq, length, ltb, ◌==◌, if◌then◌else◌, decimal,
}
use kube_min_cli.Config.{Status}
use kube_min_cli.Model.{WorkflowStep}

-- `steps` are none if the pointer is nil.
pub record Workflow : Type 0 where
  pub id : Text
  pub name : Text
  pub namespace : Text
  pub alias : Text
  pub disabled : Bool
  pub project_id : Text
  pub app_id : Text
  pub description : Text
  pub workflow_type : Text
  pub status : Status
  pub steps : Option (List WorkflowStep)
  pub create_time : ℕ
  pub update_time : ℕ

-- The loop passes over the workflow with the identifier.
abbrev pub without : Text → List Workflow → List Workflow
without exclude_id [] = []
without exclude_id (w ∷ ws) =
    let rest = without exclude_id ws in if text_eq w.id exclude_id then rest else w ∷ rest

-- The test that replaces the best workflow so far.
abbrev pub is_better : ℕ → Workflow → ℕ → Workflow → Bool
is_better rank w best_rank best =
    ltb best_rank rank
    || ((rank == best_rank) && ltb best.update_time w.update_time)
    || ((rank == best_rank)
        && (w.update_time == best.update_time)
        && ltb best.create_time w.create_time)

-- A workflow whose type is another one is passed over.
abbrev pub is_default_type : Text → Bool
is_default_type t = is_nil t || text_eq t (text "workflow")

module _ (fold : ℕ → ℕ) where
  unfoldable pub equal_fold : Text → Text → Bool
  equal_fold s t = text_eq (map fold s) (map fold t)

  -- The inner loop: whether a workflow of the list has the name.
  abbrev pub in_use : Text → List Workflow → Bool
  in_use candidate [] = false
  in_use candidate (w ∷ ws) = equal_fold w.name candidate || in_use candidate ws

  -- The outer loop; `suffix` is the number of the next candidate.
  unfoldable pub search_name : ℕ → Text → Text → ℕ → List Workflow → Option Text
  search_name zero base candidate suffix ws = none
  search_name (suc fuel) base candidate suffix ws =
      let rest = search_name fuel base (base ++ text "-" ++ decimal suffix) (suc suffix) ws in
      if in_use candidate ws then rest else some candidate

  -- One more round than there are workflows is enough: `ensure_unique_workflow_name-fresh`.
  unfoldable pub ensure_unique_workflow_name : Text → List Workflow → Option Text
  unfolding search_name
  ensure_unique_workflow_name base ws =
      if is_nil base then some base else search_name (suc (length ws)) base base 1 ws

  unfoldable pub ensure_unique_workflow_name_excluding : Text → List Workflow → Text → Option Text
  unfolding ensure_unique_workflow_name
  ensure_unique_workflow_name_excluding base ws exclude_id =
      ensure_unique_workflow_name base (without exclude_id ws)

  -- `rank` of a workflow: 2 for the name, 1 for the alias, 0 for neither.
  unfoldable pub workflow_rank : Text → Text → Workflow → ℕ
  unfolding equal_fold
  workflow_rank desired_name desired_alias w =
      if not (is_nil desired_name) && equal_fold w.name desired_name
      then 2
      else if not (is_nil desired_alias) && equal_fold w.alias desired_alias
      then 1
      else 0

  -- One round: the best workflow behind a workflow of the list.
  unfoldable pub challenge : Text → Text → Option Workflow → Workflow → Option Workflow
  unfolding workflow_rank
  challenge desired_name desired_alias none w =
      if is_default_type w.workflow_type then some w else none
  challenge desired_name desired_alias (some best) w =
      let rank = workflow_rank desired_name desired_alias in
      if is_default_type w.workflow_type && is_better (rank w) w (rank best) best
      then some w
      else some best

  unfoldable pub pick_from : Text → Text → Option Workflow → List Workflow → Option Workflow
  pick_from desired_name desired_alias best [] = best
  pick_from desired_name desired_alias best (w ∷ ws) =
      pick_from desired_name desired_alias (challenge desired_name desired_alias best w) ws

  unfoldable pub pick_default_workflow : List Workflow → Text → Text → Option Workflow
  unfolding pick_from
  pick_default_workflow ws desired_name desired_alias = pick_from desired_name desired_alias none ws
