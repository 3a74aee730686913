-- ===== src/Informer.antt =====
-- pkg/apiserver/infrastructure/informer/waiter.go and types.go: waits for a Deployment or a
-- StatefulSet that the events of the informer end, and the status that an event reports. An entry
-- is a number, a pointer into the heap `entries`. The two closed channels and the error that was
-- sent are the state of an entry. Counts of replicas are not negative, as the API server demands.
-- `atoi` is the number that `strconv.Atoi` gives with or without an error. A wait that is cancelled
-- or times out leaves its select without an entry's doing: it ends, and what it returns then is not
-- modelled. `IsClosed` in an update and the lock of `Close` after it are one step: `Close` tests
-- again.
pub mod Entries
pub mod Waits
pub mod Verdict
pub mod Tests
use kube_min_cli.Base.{
  ℕ, suc, Bool, true, false, ◌&&◌, ◌||◌, List, [], ◌∷◌, ◌++◌, Option, some, none, Text, text, Dict,
  lookup, insert, delete, is_nil, ltb, ◌==◌, if◌then◌else◌,
}

pub data ResourceType : Type 0 where
  deployment stateful_set : ResourceType

-- The errors that are sent to a wait.
pub data WaitStatus : Type 0 where
  deleted : WaitStatus

pub record WaitEntry : Type 0 where
  pub ready : Bool
  pub error : Option WaitStatus
  pub closed : Bool

abbrev pub new_entry : WaitEntry
new_entry = record { ready = false; error = none; closed = false }

-- `Close`
abbrev pub close : WaitEntry → WaitEntry
close e = if e.closed then e else record { ready = true; error = e.error; closed = true }

-- `SendError`
abbrev pub send_error : WaitStatus → WaitEntry → WaitEntry
send_error err e =
    if e.closed then e else record { ready = e.ready; error = some err; closed = true }

-- The fields of a Deployment or StatefulSet that the events read.
pub record Object : Type 0 where
  pub resource_type : ResourceType
  pub namespace : Text
  pub name : Text
  pub labels : Dict Text
  pub spec_replicas : Option ℕ
  pub ready_replicas : ℕ

abbrev pub wanted_replicas : Object → ℕ
wanted_replicas o = elim o.spec_replicas [ none ↦ 0 | some n ↦ n ]

-- `Ready` of `ExtractDeploymentStatus` and `ExtractStatefulSetStatus`
abbrev pub is_ready : Object → Bool
is_ready o = ltb 0 (wanted_replicas o) && (wanted_replicas o == o.ready_replicas)

abbrev pub type_name : ResourceType → Text
type_name deployment = text "Deployment"
type_name stateful_set = text "StatefulSet"

unfoldable pub build_key : ResourceType → Text → Text → Text
build_key t namespace name = type_name t ++ text "/" ++ namespace ++ text "/" ++ name

abbrev pub object_key : Object → Text
object_key o = build_key o.resource_type o.namespace o.name

-- `waiters`, and the entries that the goroutines in `waitForResource` hold.
pub record ResourceReadyWaiter : Type 0 where
  pub waiters : Dict ℕ
  pub entries : ℕ → WaitEntry
  pub allocated : ℕ

unfoldable pub set_entry : ℕ → WaitEntry → ResourceReadyWaiter → ResourceReadyWaiter
set_entry i e w = record {
  waiters = w.waiters;
  entries = λ j. if j == i then e else w.entries j;
  allocated = w.allocated;
}

-- `waitForResource` until its select.
unfoldable pub begin_wait : Text → ResourceReadyWaiter → ResourceReadyWaiter
unfolding set_entry
begin_wait key w =
    let s = set_entry w.allocated new_entry w in
    record {
      waiters = insert key w.allocated w.waiters;
      entries = s.entries;
      allocated = suc w.allocated;
    }

-- The deferred `Delete` of `waitForResource`.
unfoldable pub end_wait : Text → ResourceReadyWaiter → ResourceReadyWaiter
end_wait key w = record {
  waiters = delete key w.waiters;
  entries = w.entries;
  allocated = w.allocated;
}

-- What the select of `waitForResource` receives: it blocks, the resource is ready, or an error.
pub data Received : Type 0 where
  blocks receives_ready : Received
  receives_error : WaitStatus → Received

unfoldable pub receive : WaitEntry → Received
receive e =
    if e.ready then receives_ready else elim e.error [ none ↦ blocks | some s ↦ receives_error s ]

-- `OnDeploymentUpdate` and `OnStatefulSetUpdate` from the second step on.
unfoldable pub on_update : Object → ResourceReadyWaiter → ResourceReadyWaiter
on_update o w = elim (lookup (object_key o) w.waiters) [
  | none ↦ w
  | some i ↦
      if (w.entries i).closed
      then w
      else if is_ready o
      then set_entry i (close (w.entries i)) w
      else w
]

-- `OnDeploymentDelete` and `OnStatefulSetDelete` from the second step on.
unfoldable pub on_delete : Object → ResourceReadyWaiter → ResourceReadyWaiter
on_delete o w = elim (lookup (object_key o) w.waiters) [
  | none ↦ w
  | some i ↦ set_entry i (send_error deleted (w.entries i)) w
]

pub data ComponentStatus : Type 0 where
  running pending failed : ComponentStatus

pub record ComponentStatusUpdate (I : Type 0) : Type 0 where
  pub app_id : Text
  pub component_id : I
  pub component_name : Text
  pub status : ComponentStatus
  pub ready_replicas : ℕ
  pub replicas : ℕ

-- A missing label reads as the empty text.
abbrev pub label : Text → Dict Text → Text
label k ls = elim (lookup k ls) [ none ↦ [] | some v ↦ v ]

abbrev pub component_status : ℕ → ℕ → Bool → ComponentStatus
component_status replicas ready_replicas ready =
    if ready
    then running
    else if ltb 0 ready_replicas
    then pending
    else if ltb 0 replicas
    then pending
    else failed

module _ {I : Type 0} (atoi : Text → I) where
  -- `syncStatusToDB` where a callback is set: what the callback is given, if it is called.
  unfoldable pub sync_status_to_db : Dict Text → ℕ → ℕ → Bool → Option (ComponentStatusUpdate I)
  sync_status_to_db labels replicas ready_replicas ready =
      let app_id = label (text "kube-min-cli-appId") labels in
      let name = label (text "kube-min-cli-componentName") labels in
      if is_nil app_id || is_nil name
      then none
      else some (record {
        app_id = app_id;
        component_id = atoi (label (text "kube-min-cli-componentId") labels);
        component_name = name;
        status = component_status replicas ready_replicas ready;
        ready_replicas = ready_replicas;
        replicas = replicas;
      })

  pub data Event : Type 0 where
    updates deletes : Object → Event

  -- An event: what it reports, and the waiters after it.
  unfoldable pub handle :
      Event → ResourceReadyWaiter → Option (ComponentStatusUpdate I) × ResourceReadyWaiter
  handle (updates o) w =
      (sync_status_to_db o.labels (wanted_replicas o) o.ready_replicas (is_ready o), on_update o w)
  handle (deletes o) w = (sync_status_to_db o.labels 0 0 false, on_delete o w)
