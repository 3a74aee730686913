-- ===== src/Informer/Waits.antt =====
-- Waits and events as one sequence of steps, in the order in which the map and the locks of the
-- entries take them.
use kube_min_cli.Base.{
  ℕ, ◌≡◌, sym, ◌<◌, true, List, [], ◌∷◌, some, Text, text_eq, text_eq_iff, lookup, lookup-insert,
  lookup-delete, arith,
}
use kube_min_cli.Informer.{
  ResourceReadyWaiter, set_entry, begin_wait, end_wait, on_update, on_delete, Event, updates,
  deletes, handle,
}
use kube_min_cli.Informer.Entries.{
  update-waiters, delete-waiters, update-allocated, delete-allocated,
}

-- The waits that are registered have entries of their own.
pub record IsSound (w : ResourceReadyWaiter) : Type 0 where
  pub below : (k : Text) (i : ℕ) → lookup k w.waiters ≡ some i → i < w.allocated
  pub apart :
      (j k : Text) (i : ℕ)
      → lookup j w.waiters ≡ some i
      → lookup k w.waiters ≡ some i
      → text_eq j k ≡ true

module _ {I : Type 0} (atoi : Text → I) where
  -- An event, or a goroutine that begins or ends to wait for a key.
  pub data Action : Type 0 where
    event : Event atoi → Action
    begins ends : Text → Action

  unfoldable pub act : Action → ResourceReadyWaiter → ResourceReadyWaiter
  act (event e) w = (handle atoi e w).1
  act (begins k) w = begin_wait k w
  act (ends k) w = end_wait k w

  unfoldable pub act_all : List Action → ResourceReadyWaiter → ResourceReadyWaiter
  act_all [] w = w
  act_all (a ∷ rest) w = act_all rest (act a w)

  same-IsSound :
      (v w : ResourceReadyWaiter)
      → v.waiters ≡ w.waiters
      → v.allocated ≡ w.allocated
      → IsSound w
      → IsSound v
  same-IsSound v w same counted h = record {
    below = λ k i found. rw counted (h.below k i (rw (sym same) found));
    apart = λ j k i f g. h.apart j k i (rw (sym same) f) (rw (sym same) g);
  }

  pub begin_wait-IsSound :
      (k : Text) (w : ResourceReadyWaiter) → IsSound w → IsSound (begin_wait k w)
  unfolding begin_wait set_entry
  begin_wait-IsSound k w h = record {
    below = λ j i found. ground (arith, lookup-insert k j w.allocated w.waiters, h.below j i);
    apart = λ j l i f g. ground (
      arith,
      lookup-insert k j w.allocated w.waiters,
      lookup-insert k l w.allocated w.waiters,
      h.below j i,
      h.below l i,
      h.apart j l i,
      text_eq_iff j l,
      text_eq_iff k j,
      text_eq_iff k l,
    );
  }

  pub end_wait-IsSound : (k : Text) (w : ResourceReadyWaiter) → IsSound w → IsSound (end_wait k w)
  unfolding end_wait
  end_wait-IsSound k w h = record {
    below = λ j i found. ground (arith, lookup-delete k j w.waiters, h.below j i);
    apart = λ j l i f g.
        ground (arith, lookup-delete k j w.waiters, lookup-delete k l w.waiters, h.apart j l i);
  }

  pub act-IsSound : (a : Action) (w : ResourceReadyWaiter) → IsSound w → IsSound (act a w)
  unfolding act handle
  act-IsSound (event (updates o)) w h =
      same-IsSound (on_update o w) w (update-waiters o w) (update-allocated o w) h
  act-IsSound (event (deletes o)) w h =
      same-IsSound (on_delete o w) w (delete-waiters o w) (delete-allocated o w) h
  act-IsSound (begins k) w h = begin_wait-IsSound k w h
  act-IsSound (ends k) w h = end_wait-IsSound k w h
