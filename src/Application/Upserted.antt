-- ===== src/Application/Upserted.antt =====
-- What a creation leaves in the tables.
use kube_min_cli.Base.{
  ℕ, suc, ◌≡◌, refl, ap, subst, Bool, true, false, not, ◌&&◌, List, [], ◌∷◌, ◌++◌, Option, none,
  some, Text, lookup, text_eq, is_nil, length, length-append, all, if◌then◌else◌, arith,
}
use kube_min_cli.Naming.{Unicode}
use kube_min_cli.Spec.{CreateComponentRequest, CreateApplicationsRequest}
use kube_min_cli.Application.Components.{Applications, ApplicationComponent, prepare_components}
use kube_min_cli.Application.Create.{
  tx, Database, begin, settle, run_creation, requested_application, with_namespace, with_version,
  create_prepared, create_resolved, create_found, create_applications,
}
use kube_min_cli.Application.Resolve.{resolve_components}
use kube_min_cli.Application.Template.{Result, ok, failed}
use kube_min_cli.Application.Upsert.{
  Tables, components_of, workflows_of, put_workflow, CreateError, Answer, done, refused,
  CreateFailures, upsert_picked, upsert_default_workflow, new_default_workflow, refreshed_workflow,
  requested_steps, desired_name, desired_alias, store_failed, create_workflow_failed,
}
use kube_min_cli.Application.WorkflowName.{Workflow, pick_default_workflow}

-- Whatever the answer, the stored tables are those.
abbrev Keeps : Tables → Database × Answer Workflow → Type 0
Keeps t r = r.0.stored ≡ t

if-Keeps :
    (t : Tables) (b : Bool) (x y : Database × Answer Workflow)
    → Keeps t x
    → Keeps t y
    → Keeps t (if b then x else y)
if-Keeps t true x y h k = h
if-Keeps t false x y h k = k

-- A refusal leaves the stored tables as they were.
abbrev IsAtomic : Tables → Database × Answer Workflow → Type 0
IsAtomic t (after, done w) = Unit
IsAtomic t (after, refused e) = after.stored ≡ t

settle-IsAtomic :
    (t : Tables) (commit_fails : Bool) (r : Database × Answer Workflow)
    → Keeps t r
    → IsAtomic t (settle commit_fails r)
settle-IsAtomic t commit_fails (after, refused e) h = h
settle-IsAtomic t true (after, done w) h = h
settle-IsAtomic t false (after, done w) h = tt

module _ (u : Unicode) (fold : ℕ → ℕ) where
  -- All that `run` writes through a transaction is staged.
  run_creation-Keeps :
      (f : CreateFailures) (fresh : Text) (now : ℕ) (app : Applications)
      (req : CreateApplicationsRequest) (resolved : List CreateComponentRequest)
      (cs : List ApplicationComponent) (db : Database)
      → Keeps db.stored (run_creation u fold f fresh now app req resolved cs tx db)
  unfolding run_creation
  run_creation-Keeps f fresh now app req resolved cs db =
      if-Keeps db.stored f.add_application _ _ refl (
        if-Keeps db.stored f.delete_components _ _ refl
          (if-Keeps db.stored (f.add_components && not (is_nil cs)) _ _ refl refl))

  module _ (f : CreateFailures) (fresh : Text) (now : ℕ) (req : CreateApplicationsRequest)
      (db : Database) where
    create_prepared-IsAtomic :
        (app : Applications) (resolved : List CreateComponentRequest)
        (o : Option (List ApplicationComponent))
        → IsAtomic db.stored (create_prepared u fold f true fresh now req db app resolved o)
    unfolding create_prepared
    create_prepared-IsAtomic app resolved none = refl
    create_prepared-IsAtomic app resolved (some cs) =
        settle-IsAtomic db.stored f.commit
          (run_creation u fold f fresh now app req resolved cs tx (begin db))
          (run_creation-Keeps f fresh now app req resolved cs (begin db))

    create_resolved-IsAtomic :
        (app : Applications) (r : Result (List CreateComponentRequest))
        → IsAtomic db.stored (create_resolved u fold f true fresh now req db app r)
    unfolding create_resolved
    create_resolved-IsAtomic app (failed e) = refl
    create_resolved-IsAtomic app (ok resolved) =
        create_prepared-IsAtomic app resolved (prepare_components app.id app.namespace resolved)

    create_found-IsAtomic :
        (o : Option Applications)
        → IsAtomic db.stored (create_found u fold f true fresh now req db o)
    unfolding create_found
    create_found-IsAtomic none = refl
    create_found-IsAtomic (some found) =
        let app = with_namespace u fold found in
        create_resolved-IsAtomic app (
          resolve_components u (λ id. lookup id db.stored.applications)
            (λ id. some (components_of id db.stored.components)) app.namespace app.name
            req.component)

  -- A creation over a store with transactions that is refused, by a call that fails or by the commit,
  -- leaves each stored table as it was.
  pub create_applications-atomic :
      (f : CreateFailures) (a b : Text) (now : ℕ) (request : CreateApplicationsRequest)
      (db after : Database) (e : CreateError)
      → create_applications u fold f true a b now request db ≡ (after, refused e)
      → after.stored ≡ db.stored
  unfolding create_applications
  create_applications-atomic f a b now request db after e h =
      let req = with_version u fold request in
      subst (IsAtomic db.stored) h (
        create_found-IsAtomic f b now req db
          (requested_application u fold a req db.stored.applications))

length-put_workflow : (w : Workflow) (ws : List Workflow) → length (put_workflow w ws) ≡ length ws
unfolding put_workflow
length-put_workflow w [] = refl
length-put_workflow w (v ∷ vs) = ap suc (length-put_workflow w vs)

abbrev is_none {ℓ} : {A : Type ℓ} → Option A → Bool
is_none none = true
is_none (some x) = false

-- The rows behind a creation of the default workflow, given the workflow that was picked.
abbrev HasRows : List Workflow → Bool → List Workflow × Answer Workflow → Type 0
HasRows table new (after, done w) =
    length after ≡ (if new then suc (length table) else length table)
HasRows table new (after, refused e) = after ≡ table

if-HasRows :
    (table : List Workflow) (new b : Bool) (x y : List Workflow × Answer Workflow)
    → HasRows table new x
    → HasRows table new y
    → HasRows table new (if b then x else y)
if-HasRows table new true x y h k = h
if-HasRows table new false x y h k = k

module _ (fold : ℕ → ℕ) where
  upsert_picked-HasRows :
      (f : CreateFailures) (fresh : Workflow) (refresh : Workflow → Workflow)
      (table : List Workflow) (o : Option Workflow)
      → HasRows table (is_none o) (upsert_picked fold f fresh refresh table o)
  unfolding upsert_picked
  upsert_picked-HasRows f fresh refresh table none =
      if-HasRows table true f.add_workflow (table, refused create_workflow_failed)
        (table ++ (fresh ∷ []), done fresh) refl (omega (arith, length-append table (fresh ∷ [])))
  upsert_picked-HasRows f fresh refresh table (some w) =
      if-HasRows table false f.put_fails (table, refused store_failed)
        (put_workflow (refresh w) table, done (refresh w)) refl
        (length-put_workflow (refresh w) table)

  -- The creation of the default workflow adds a row just when the application has no workflow of
  -- the type yet; otherwise the number of rows stays.
  pub upsert_default_workflow-rows :
      (f : CreateFailures) (fresh : Text) (now : ℕ) (app : Applications)
      (req : CreateApplicationsRequest) (resolved : List CreateComponentRequest)
      (table after : List Workflow) (w : Workflow)
      → upsert_default_workflow fold f fresh now app req resolved table ≡ (after, done w)
      → length after ≡ (
          if is_none (
            pick_default_workflow fold
              (workflows_of app.id table)
              (desired_name fold req)
              (desired_alias fold req))
          then suc (length table)
          else length table)
  unfolding upsert_default_workflow
  upsert_default_workflow-rows f fresh now app req resolved table after w h =
      let steps = requested_steps fold req resolved in
      let ws = workflows_of app.id table in
      let picked = pick_default_workflow fold ws (desired_name fold req) (desired_alias fold req) in
      let chosen =
        upsert_picked fold f (new_default_workflow fold fresh now app req steps ws)
          (refreshed_workflow fold now app req steps ws) table picked in
      subst (HasRows table (is_none picked)) h (
        if-HasRows table (is_none picked) f.find_workflows (table, refused store_failed) chosen refl
          (upsert_picked-HasRows f (new_default_workflow fold fresh now app req steps ws)
            (refreshed_workflow fold now app req steps ws) table picked))

-- All components are of the application.
abbrev all_of : Text → List ApplicationComponent → Bool
all_of k = all λ (c : ApplicationComponent). text_eq c.app_id k

-- What a creation that is done has stored: the application, and of its components the prepared ones.
abbrev IsComplete : Applications → List ApplicationComponent → Tables × Answer Workflow → Type 0
IsComplete app cs (t, done w) =
    (lookup app.id t.applications ≡ some app) × (components_of app.id t.components ≡ cs)
IsComplete app cs (t, refused e) = Unit
