-- ===== src/Informer/Entries.antt =====
-- What an event changes: at most the entry under the key of its resource.
use kube_min_cli.Base.{ℕ, ◌≡◌, Bool, some, none, lookup, ==_iff, ◌==◌, if◌then◌else◌, arith}
use kube_min_cli.Informer.{
  WaitEntry, close, send_error, deleted, Object, is_ready, object_key, ResourceReadyWaiter,
  set_entry, on_update, on_delete,
}

-- The entry after an update that reports its resource, ready or not.
abbrev pub updated_entry : Bool → WaitEntry → WaitEntry
updated_entry is_ready e = if e.closed then e else if is_ready then close e else e

pub update-entries :
    (o : Object) (w : ResourceReadyWaiter) (i j : ℕ)
    → lookup (object_key o) w.waiters ≡ some j
    → (on_update o w).entries i
      ≡ (if i == j then updated_entry (is_ready o) (w.entries j) else w.entries i)
unfolding on_update set_entry
update-entries o w i j found = ground (arith, ==_iff i j)

pub update-waiters : (o : Object) (w : ResourceReadyWaiter) → (on_update o w).waiters ≡ w.waiters
unfolding on_update set_entry
update-waiters o w = ground arith

pub delete-waiters : (o : Object) (w : ResourceReadyWaiter) → (on_delete o w).waiters ≡ w.waiters
unfolding on_delete set_entry
delete-waiters o w = ground arith

pub delete-entries :
    (o : Object) (w : ResourceReadyWaiter) (i j : ℕ)
    → lookup (object_key o) w.waiters ≡ some j
    → (on_delete o w).entries i ≡ (if i == j then send_error deleted (w.entries j) else w.entries i)
unfolding on_delete set_entry
delete-entries o w i j found = ground (arith, ==_iff i j)

pub update-nobody :
    (o : Object) (w : ResourceReadyWaiter)
    → lookup (object_key o) w.waiters ≡ none
    → on_update o w ≡ w
unfolding on_update
update-nobody o w nobody = ground arith

pub delete-nobody :
    (o : Object) (w : ResourceReadyWaiter)
    → lookup (object_key o) w.waiters ≡ none
    → on_delete o w ≡ w
unfolding on_delete
delete-nobody o w nobody = ground arith

pub update-allocated :
    (o : Object) (w : ResourceReadyWaiter) → (on_update o w).allocated ≡ w.allocated
unfolding on_update set_entry
update-allocated o w = ground arith

pub delete-allocated :
    (o : Object) (w : ResourceReadyWaiter) → (on_delete o w).allocated ≡ w.allocated
unfolding on_delete set_entry
delete-allocated o w = ground arith
