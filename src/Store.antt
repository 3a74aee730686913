-- ===== src/Store.antt =====
-- pkg/apiserver/infrastructure/datastore/sql/driver.go for the table of workflow tasks, and the
-- task functions of pkg/apiserver/domain/repository/workflow.go on top of it.
-- gorm, which runs the statements, is the parameter `Gorm`; its laws are what gorm documents.
use kube_min_cli.Base.{
  ℕ, ◌<◌, ◌≡◌, ◌≢◌, Bool, true, false, Option, none, some, List, [], ◌∷◌, Text, text_eq, is_nil,
  All, if◌then◌else◌, ltb, ite,
}
pub mod Swap
pub mod OneRow
use mathlib.Core.Option
use mathlib.Core.List.{Memᴰ}
use kube_min_cli.Config.{
  Status, Status-discrete, unset, created, running, waiting, queued, blocked, pending, prepare,
  waiting_approve,
}
use kube_min_cli.Model.{WorkflowQueue}

-- What a statement returns: its value, gorm's "record not found", or any other error.
pub data Outcome {ℓ} (A : Type ℓ) : Type ℓ where
  done : A → Outcome A
  not_found : Outcome A
  failure : Outcome A

-- `Updates(struct)` writes the fields that are not zero.
abbrev overlay_status : Status → Status → Status
overlay_status unset old = old
overlay_status new _ = new

abbrev overlay_text : Text → Text → Text
overlay_text [] old = old
overlay_text (c ∷ cs) old = c ∷ cs

abbrev overlay_time : ℕ → ℕ → ℕ
overlay_time new old = if ltb 0 new then new else old

unfoldable pub overlay : WorkflowQueue → WorkflowQueue → WorkflowQueue
overlay q r = record {
  task_id = r.task_id;
  project_id = overlay_text q.project_id r.project_id;
  workflow_name = overlay_text q.workflow_name r.workflow_name;
  app_id = overlay_text q.app_id r.app_id;
  workflow_id = overlay_text q.workflow_id r.workflow_id;
  status = overlay_status q.status r.status;
  task_revoker = overlay_text q.task_revoker r.task_revoker;
  create_time = overlay_time q.create_time r.create_time;
  update_time = overlay_time q.update_time r.update_time;
}

-- Of the row under a key: its status and its time of update replaced if its status was `from`.
unfoldable pub swap_status : Status → Status → ℕ → Option WorkflowQueue → Option WorkflowQueue
swap_status from to now none = none
swap_status from to now (some r) =
    ite (Status-discrete r.status from) (some (record r { status = to; update_time = now }))
      (some r)

-- How many rows such a statement affects.
unfoldable pub affected : Status → Option WorkflowQueue → ℕ
affected from none = 0
affected from (some r) = ite (Status-discrete r.status from) 1 0

pub record Gorm : Type 1 where
  pub Table : Type 0
  -- The row that is stored under a task id.
  pub row : Text → Table → Option WorkflowQueue
  -- `time.Now()` before a statement on this table; it is never the zero time.
  pub clock : Table → ℕ
  pub first : Text → Table → Outcome WorkflowQueue
  pub updates : WorkflowQueue → Table → Outcome (Unit {0}) × Table
  pub update_where : Text → Status → Status → ℕ → Table → Outcome ℕ × Table
  pub find_in : (Status → Bool) → Table → Outcome (List WorkflowQueue)
  pub clock_positive : (t : Table) → 0 < clock t
  pub first_row : (k : Text) (t : Table) (q : WorkflowQueue) → first k t ≡ done q → row k t ≡ some q
  pub row_id : (k : Text) (t : Table) (q : WorkflowQueue) → row k t ≡ some q → q.task_id ≡ k
  pub updates_row :
      (q : WorkflowQueue) (t : Table) (j : Text)
      → (updates q t).0 ≡ done tt
      → row j (updates q t).1
        ≡ (if text_eq q.task_id j then Option.map (overlay q) (row j t) else row j t)
  -- A statement that fails changes nothing.
  pub updates_kept :
      (q : WorkflowQueue) (t : Table) (j : Text)
      → (updates q t).0 ≢ done tt
      → row j (updates q t).1 ≡ row j t
  pub where_row :
      (k : Text) (from to : Status) (now : ℕ) (t : Table) (n : ℕ) (j : Text)
      → (update_where k from to now t).0 ≡ done n
      → row j (update_where k from to now t).1
        ≡ (if text_eq k j then swap_status from to now (row j t) else row j t)
  pub where_count :
      (k : Text) (from to : Status) (now : ℕ) (t : Table) (n : ℕ)
      → (update_where k from to now t).0 ≡ done n
      → n ≡ affected from (row k t)
  pub where_kept :
      (k : Text) (from to : Status) (now : ℕ) (t : Table) (j : Text)
      → ((n : ℕ) → (update_where k from to now t).0 ≢ done n)
      → row j (update_where k from to now t).1 ≡ row j t
  pub find_sound :
      (p : Status → Bool) (t : Table) (qs : List WorkflowQueue)
      → find_in p t ≡ done qs
      → All (λ q. (row q.task_id t ≡ some q) × (p q.status ≡ true)) qs
  pub find_complete :
      (p : Status → Bool) (t : Table) (qs : List WorkflowQueue) (k : Text) (q : WorkflowQueue)
      → find_in p t ≡ done qs
      → row k t ≡ some q
      → p q.status ≡ true
      → Memᴰ q qs

-- The errors of the datastore package that the callers tell apart.
pub data DbError : Type 0 where
  primary_empty record_not_exist db_error : DbError

pub data Result {ℓ} (A : Type ℓ) : Type ℓ where
  ok : A → Result A
  err : DbError → Result A

abbrev pub from_outcome {ℓ} : {A : Type ℓ} → Outcome A → Result A
from_outcome (done a) = ok a
from_outcome not_found = err record_not_exist
from_outcome failure = err db_error

abbrev affected_any : Outcome ℕ → Result Bool
affected_any (done n) = ok (ltb 0 n)
affected_any not_found = err db_error
affected_any failure = err db_error

-- The statuses that `TaskRunning` selects.
unfoldable pub is_active : Status → Bool
is_active created = true
is_active running = true
is_active waiting = true
is_active queued = true
is_active blocked = true
is_active pending = true
is_active prepare = true
is_active waiting_approve = true
is_active unset = true
is_active _ = false

module _ (g : Gorm) where
  open g use {Table, row, clock, first, updates, update_where, find_in}

  -- `Driver.Get` of a task, which is `TaskByID`.
  unfoldable pub get : Text → Table → Result WorkflowQueue
  get k t = if is_nil k then err primary_empty else from_outcome (first k t)

  -- What `Put` writes: `SetUpdateTime` changes the caller's object.
  abbrev pub stamped : WorkflowQueue → Table → WorkflowQueue
  stamped q t = record q { update_time = clock t }

  -- `Driver.Put` of a task, which is `UpdateTask`.
  unfoldable pub put : WorkflowQueue → Table → Result (Unit {0}) × Table
  put q t =
      if is_nil q.task_id
      then (err primary_empty, t)
      else (from_outcome (updates (stamped q t) t).0, (updates (stamped q t) t).1)

  -- `Driver.CompareAndSwap` on the status column.
  unfoldable pub compare_and_swap : Text → Status → Status → Table → Result Bool × Table
  compare_and_swap k from to t = if is_nil k then (err primary_empty, t) else (
    affected_any (update_where k from to (clock t) t).0,
    (update_where k from to (clock t) t).1,
  )

  -- The `from == ""` half of `UpdateTaskStatus`: read, then write without a condition.
  abbrev set_loaded : Status → Result WorkflowQueue → Table → Result Bool × Table
  set_loaded to (err record_not_exist) t = (ok false, t)
  set_loaded to (err e) t = (err e, t)
  set_loaded to (ok q) t =
      let (r, t') = put (record q { status = to }) t in
      (elim r [ ok _ ↦ ok true | err e ↦ err e ], t')

  unfoldable pub update_task_status : Text → Status → Status → Table → Result Bool × Table
  update_task_status k unset to t = set_loaded to (get k t) t
  update_task_status k from to t = compare_and_swap k from to t

  unfoldable pub task_running : Table → Result (List WorkflowQueue)
  unfolding is_active
  task_running t = from_outcome (find_in is_active t)
