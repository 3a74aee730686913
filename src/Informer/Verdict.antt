-- ===== src/Informer/Verdict.antt =====
-- Which events end a wait, and how: the first that reports the resource ready or deleted.
use kube_min_cli.Base.{
  ℕ, ◌≡◌, refl, ap, sym, ◌∙◌, Bool, true, false, List, [], ◌∷◌, some, none, Text, text_eq,
  text_eq_iff, lookup, lookup-insert, lookup-delete, ==_iff, if◌then◌else◌, arith, Option-cases,
  inl, inr, not, all,
}
use kube_min_cli.Informer.{
  WaitEntry, new_entry, send_error, deleted, Object, is_ready, object_key, ResourceReadyWaiter,
  set_entry, begin_wait, end_wait, Received, blocks, receives_ready, receives_error, receive,
  on_update, on_delete, updates, deletes, handle,
}
use kube_min_cli.Informer.Entries.{
  updated_entry, update-entries, update-waiters, update-nobody, delete-entries, delete-waiters,
  delete-nobody,
}
use kube_min_cli.Informer.Waits.{
  IsSound, Action, event, begins, ends, act, act_all, act-IsSound, begin_wait-IsSound,
}

-- The entry whose wait has received this.
abbrev pub entry_after : Received → WaitEntry
entry_after blocks = new_entry
entry_after receives_ready = record { ready = true; error = none; closed = true }
entry_after (receives_error s) = record { ready = false; error = some s; closed = true }

receive-entry_after : (r : Received) → receive (entry_after r) ≡ r
unfolding receive
receive-entry_after blocks = refl
receive-entry_after receives_ready = refl
receive-entry_after (receives_error s) = refl

-- What counts is what was received first.
abbrev pub or_else : Received → Received → Received
or_else blocks r = r
or_else receives_ready r = receives_ready
or_else (receives_error s) r = receives_error s

or_else_assoc : (p q r : Received) → or_else (or_else p q) r ≡ or_else p (or_else q r)
or_else_assoc blocks q r = refl
or_else_assoc receives_ready q r = refl
or_else_assoc (receives_error s) q r = refl

update-or_else :
    (b : Bool) (r : Received)
    → updated_entry b (entry_after r)
      ≡ entry_after (or_else r (if b then receives_ready else blocks))
update-or_else true blocks = refl
update-or_else false blocks = refl
update-or_else b receives_ready = refl
update-or_else b (receives_error s) = refl

delete-or_else :
    (r : Received)
    → send_error deleted (entry_after r) ≡ entry_after (or_else r (receives_error deleted))
delete-or_else blocks = refl
delete-or_else receives_ready = refl
delete-or_else (receives_error s) = refl

or_else-blocks : (r : Received) → or_else r blocks ≡ r
or_else-blocks blocks = refl
or_else-blocks receives_ready = refl
or_else-blocks (receives_error s) = refl

-- What an update and a deletion of an object say of the resource with the key.
abbrev pub update_says : Text → Object → Received
update_says k o =
    if text_eq (object_key o) k then (if is_ready o then receives_ready else blocks) else blocks

abbrev pub delete_says : Text → Object → Received
delete_says k o = if text_eq (object_key o) k then receives_error deleted else blocks

-- A registered wait, with its entry in the state that `r` left it in.
record IsWaiting (k : Text) (i : ℕ) (r : Received) (w : ResourceReadyWaiter) : Type 0 where
  found : lookup k w.waiters ≡ some i
  state : w.entries i ≡ entry_after r

update-IsWaiting :
    (o : Object) (k : Text) (i : ℕ) (r : Received) (w : ResourceReadyWaiter)
    → IsSound w
    → IsWaiting k i r w
    → IsWaiting k i (or_else r (update_says k o)) (on_update o w)
update-IsWaiting o k i r w sound h = record {
  found = rw (update-waiters o w) h.found;
  state = elim (Option-cases (lookup (object_key o) w.waiters)) [
    | inl nobody ↦ ground (
      arith,
      h.state,
      h.found,
      text_eq_iff (object_key o) k,
      or_else-blocks r,
      update-nobody o w nobody,
    )
    | inr (j, found) ↦ ground (
      arith,
      h.state,
      h.found,
      text_eq_iff (object_key o) k,
      sound.apart (object_key o) k i,
      update-entries o w i j found,
      ==_iff i j,
      update-or_else (is_ready o) r,
      or_else-blocks r,
    )
  ];
}

delete-IsWaiting :
    (o : Object) (k : Text) (i : ℕ) (r : Received) (w : ResourceReadyWaiter)
    → IsSound w
    → IsWaiting k i r w
    → IsWaiting k i (or_else r (delete_says k o)) (on_delete o w)
delete-IsWaiting o k i r w sound h = record {
  found = rw (delete-waiters o w) h.found;
  state = elim (Option-cases (lookup (object_key o) w.waiters)) [
    | inl nobody ↦ ground (
      arith,
      h.state,
      h.found,
      text_eq_iff (object_key o) k,
      or_else-blocks r,
      delete-nobody o w nobody,
    )
    | inr (j, found) ↦ ground (
      arith,
      h.state,
      h.found,
      text_eq_iff (object_key o) k,
      sound.apart (object_key o) k i,
      delete-entries o w i j found,
      ==_iff i j,
      delete-or_else r,
      or_else-blocks r,
    )
  ];
}

begin_wait-IsWaiting :
    (j k : Text) (i : ℕ) (r : Received) (w : ResourceReadyWaiter)
    → text_eq j k ≡ false
    → IsSound w
    → IsWaiting k i r w
    → IsWaiting k i r (begin_wait j w)
unfolding begin_wait set_entry
begin_wait-IsWaiting j k i r w other sound h = record {
  found = ground (arith, h.found, lookup-insert j k w.allocated w.waiters);
  state = ground (arith, h.state, h.found, sound.below k i, ==_iff i w.allocated);
}

end_wait-IsWaiting :
    (j k : Text) (i : ℕ) (r : Received) (w : ResourceReadyWaiter)
    → text_eq j k ≡ false
    → IsWaiting k i r w
    → IsWaiting k i r (end_wait j w)
unfolding end_wait
end_wait-IsWaiting j k i r w other h = record {
  found = ground (arith, h.found, lookup-delete j k w.waiters);
  state = h.state;
}

begun : (k : Text) (w : ResourceReadyWaiter) → IsWaiting k w.allocated blocks (begin_wait k w)
unfolding begin_wait set_entry
begun k w = record {
  found = ground (arith, lookup-insert k k w.allocated w.waiters, text_eq_iff k k);
  state = ground (arith, ==_iff w.allocated w.allocated);
}

module _ {I : Type 0} (atoi : Text → I) where
  abbrev pub says : Text → Action atoi → Received
  says k (event (updates o)) = update_says k o
  says k (event (deletes o)) = delete_says k o
  says k (begins j) = blocks
  says k (ends j) = blocks

  -- What the first of the steps that decides says.
  unfoldable pub verdict : Text → List (Action atoi) → Received
  verdict k [] = blocks
  verdict k (a ∷ rest) = or_else (says k a) (verdict k rest)

  -- No other goroutine begins or ends to wait for the key.
  abbrev pub leaves : Text → Action atoi → Bool
  leaves k (event e) = true
  leaves k (begins j) = not (text_eq j k)
  leaves k (ends j) = not (text_eq j k)

  act-IsWaiting :
      (a : Action atoi) (k : Text) (i : ℕ) (r : Received) (w : ResourceReadyWaiter)
      → leaves k a ≡ true
      → IsSound w
      → IsWaiting k i r w
      → IsWaiting k i (or_else r (says k a)) (act atoi a w)
  unfolding act handle
  act-IsWaiting (event (updates o)) k i r w l sound h = update-IsWaiting o k i r w sound h
  act-IsWaiting (event (deletes o)) k i r w l sound h = delete-IsWaiting o k i r w sound h
  act-IsWaiting (begins j) k i r w l sound h =
      rw (or_else-blocks r) (begin_wait-IsWaiting j k i r w (ground arith) sound h)
  act-IsWaiting (ends j) k i r w l sound h =
      rw (or_else-blocks r) (end_wait-IsWaiting j k i r w (ground arith) h)

  act_all-IsWaiting :
      (steps : List (Action atoi)) (k : Text) (i : ℕ) (r : Received) (w : ResourceReadyWaiter)
      → all (leaves k) steps ≡ true
      → IsSound w
      → IsWaiting k i r w
      → IsWaiting k i (or_else r (verdict k steps)) (act_all atoi steps w)
  unfolding act_all verdict
  act_all-IsWaiting [] k i r w l sound h = rw (or_else-blocks r) h
  act_all-IsWaiting (a ∷ rest) k i r w l sound h =
      rw (sym (or_else_assoc r (says k a) (verdict k rest))) (
        act_all-IsWaiting rest k i (or_else r (says k a)) (act atoi a w) (ground arith)
          (act-IsSound atoi a w sound) (act-IsWaiting a k i r w (ground arith) sound h))

  -- Where a goroutine begins to wait for a key among sound waiters, and in the steps after it no
  -- other begins or ends a wait for that key, its select receives what the first update that reports
  -- the resource of the key ready, or the first deletion of it, says, whichever comes first, and it
  -- blocks where there is neither.
  pub act_all-verdict :
      (k : Text) (w : ResourceReadyWaiter) (steps : List (Action atoi))
      → IsSound w
      → all (leaves k) steps ≡ true
      → receive ((act_all atoi steps (begin_wait k w)).entries w.allocated) ≡ verdict k steps
  act_all-verdict k w steps sound l =
      let end =
        act_all-IsWaiting steps k w.allocated blocks (begin_wait k w) l
          (begin_wait-IsSound atoi k w sound) (begun k w) in
      ap receive end.state ∙ receive-entry_after (verdict k steps)

-- The waiters of `NewResourceReadyWaiter`.
abbrev pub no_waits : ResourceReadyWaiter
no_waits = record { waiters = []; entries = λ i. new_entry; allocated = 0 }

pub no_waits-IsSound : IsSound no_waits
unfolding lookup
no_waits-IsSound = record {
  below = λ k i found. ground (arith, found);
  apart = λ j k i f g. ground (arith, f);
}
