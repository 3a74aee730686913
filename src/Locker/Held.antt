-- ===== src/Locker/Held.antt =====
-- A lock that is held stays with its mutex until that mutex acts or the time of the lock is over.
use kube_min_cli.Base.{
  ℕ, ◌+◌, ◌^◌, ◌≤◌, ◌<◌, ◌≡◌, ◌≢◌, ap, ==_iff, refl, ◌∙◌, Bool, true, false, not, ◌&&◌, Option,
  some, none, List, [], ◌∷◌, insert, lookup-insert, text_eq, text_eq_iff, arith, Bool-cases, inl,
  inr, length, leb, leb→le, ◌==◌, all, Text, Dict, if◌then◌else◌,
}
use kube_min_cli.Locker.{
  LockError, MemoryMutex, MemoryLockEntry, entry_of, expire, try_acquire, unlock, extend,
}
use kube_min_cli.Locker.Mutexes.{
  Mutexes, Op, acquires, unlocks, extends, own_entry, act, act_all, can_unlock, IsSound,
}
use kube_min_cli.Locker.Exclusion.{
  act-IsSound, act-counter, act_all-IsSound, can_unlock-holds, exclusive, after, fresh-IsSound,
}

abbrev is_none : Option LockError → Bool
is_none none = true
is_none (some e) = false

-- An operation of another mutex, which acquires no later than at this time.
abbrev pub spares : ℕ → ℕ → Op → Bool
spares i t (acquires j now) = not (j == i) && leb now t
spares i t (unlocks j) = not (j == i)
spares i t (extends j now) = not (j == i)

try_acquire-held :
    (now counter t : ℕ) (e : MemoryLockEntry) (m : MemoryMutex)
    → e.held ≡ true
    → e.expires_at ≡ some t
    → now ≤ t
    → ((try_acquire now counter e m).entry ≡ e) × ((try_acquire now counter e m).acquired ≡ false)
unfolding try_acquire expire
try_acquire-held now counter t e m h x le = (ground arith, ground arith)

unlock-kept :
    (j : ℕ) (s : Mutexes)
    → can_unlock j s ≡ false
    → (unlock false (own_entry j s) (s.mutex j)).1 ≡ own_entry j s
unfolding can_unlock unlock
unlock-kept j s h = ground arith

extend-kept :
    (j now : ℕ) (s : Mutexes)
    → can_unlock j s ≡ false
    → (extend false now (own_entry j s) (s.mutex j)).1 ≡ own_entry j s
unfolding can_unlock unlock extend
extend-kept j now s h = ground arith

entry_of-insert :
    (j k : Text) (e : MemoryLockEntry) (locks : Dict MemoryLockEntry)
    → entry_of k (insert j e locks) ≡ (if text_eq j k then e else entry_of k locks)
entry_of-insert j k e locks = ground (arith, lookup-insert j k e locks)

pick_then : (b : Bool) (x y : MemoryLockEntry) → b ≡ true → (if b then x else y) ≡ x
pick_then b x y h = rw h refl

pick_else : (b : Bool) (x y : MemoryLockEntry) → b ≡ false → (if b then x else y) ≡ y
pick_else b x y h = rw h refl

-- A stored entry under another key, or the same entry again, leaves the entry of a mutex.
insert-kept :
    (i j : ℕ) (e : MemoryLockEntry) (s : Mutexes)
    → ((s.mutex j).key ≡ (s.mutex i).key → e ≡ own_entry j s)
    → entry_of (s.mutex i).key (insert (s.mutex j).key e s.locks) ≡ own_entry i s
insert-kept i j e s h = elim (Bool-cases (text_eq (s.mutex j).key (s.mutex i).key)) [
  | inl same ↦
      let k = (text_eq_iff (s.mutex j).key (s.mutex i).key).0 same in
      entry_of-insert (s.mutex j).key (s.mutex i).key e s.locks
      ∙ pick_then _ e (own_entry i s) same
      ∙ h k
      ∙ ap (λ x. entry_of x s.locks) k
  | inr other ↦
      entry_of-insert (s.mutex j).key (s.mutex i).key e s.locks
      ∙ pick_else _ e (own_entry i s) other
]

-- What an operation of another mutex leaves of the entry of this one, and of the mutex.
act-spares :
    (o : Op) (s : Mutexes) (i t : ℕ)
    → spares i t o ≡ true
    → (own_entry i s).held ≡ true
    → (own_entry i s).expires_at ≡ some t
    → ((j : ℕ) → j ≢ i → (s.mutex j).key ≡ (s.mutex i).key → can_unlock j s ≡ false)
    → (own_entry i (act o s) ≡ own_entry i s) × ((act o s).mutex i ≡ s.mutex i)
unfolding act
act-spares (acquires j now) s i t sp h x alone =
    let other : (i == j) ≡ false = ground (arith, ==_iff i j, ==_iff j i) in
    let on_time : now ≤ t = leb→le now t (ground arith) in
    let kept = insert-kept i j (try_acquire now s.counter (own_entry j s) (s.mutex j)).entry s (λ k.
      let same = ap (λ x. entry_of x s.locks) k in
      (try_acquire-held now s.counter t (own_entry j s) (s.mutex j)
        (ap (λ (e : MemoryLockEntry). e.held) same ∙ h)
        (ap (λ (e : MemoryLockEntry). e.expires_at) same ∙ x) on_time).0) in
    (rw other kept, rw other refl)
act-spares (unlocks j) s i t sp h x alone =
    let other : j ≢ i = ground (arith, ==_iff j i) in
    (
      insert-kept i j (unlock false (own_entry j s) (s.mutex j)).1 s
          (λ k. unlock-kept j s (alone j other k)),
      refl,
    )
act-spares (extends j now) s i t sp h x alone =
    let other : j ≢ i = ground (arith, ==_iff j i) in
    (
      insert-kept i j (extend false now (own_entry j s) (s.mutex j)).1 s
          (λ k. extend-kept j now s (alone j other k)),
      refl,
    )

-- A mutex holds its lock until a time.
record IsHeld (i t : ℕ) (s : Mutexes) : Type 0 where
  unlockable : can_unlock i s ≡ true
  until : (own_entry i s).expires_at ≡ some t

alone :
    (i j : ℕ) (s : Mutexes)
    → IsSound s
    → can_unlock i s ≡ true
    → j ≢ i
    → (s.mutex j).key ≡ (s.mutex i).key
    → can_unlock j s ≡ false
alone i j s h c other k = elim (Bool-cases (can_unlock j s)) [
  | inl cj ↦ absurd (other (exclusive j i s h k cj c))
  | inr free ↦ free
]

act-IsHeld :
    (o : Op) (s : Mutexes) (i t : ℕ)
    → spares i t o ≡ true
    → IsSound s
    → IsHeld i t s
    → IsHeld i t (act o s)
act-IsHeld o s i t sp sound h =
    let (entry, mutex) =
      act-spares o s i t sp (can_unlock-holds i s h.unlockable).0 h.until
        (λ j other k. alone i j s sound h.unlockable other k) in
    record {
      unlockable = can_unlock_same i (act o s) s entry mutex ∙ h.unlockable;
      until = ap (λ (e : MemoryLockEntry). e.expires_at) entry ∙ h.until;
    }
  where
    can_unlock_same :
        (i : ℕ) (r s : Mutexes)
        → own_entry i r ≡ own_entry i s
        → r.mutex i ≡ s.mutex i
        → can_unlock i r ≡ can_unlock i s
    can_unlock_same i r s e m =
        unfold can_unlock in
        (ap (λ x. is_none (unlock false x (r.mutex i)).0) e
          ∙ ap (λ x. is_none (unlock false (own_entry i s) x).0) m)

act_all-IsHeld :
    (os : List Op) (s : Mutexes) (i t : ℕ)
    → s.counter + length os < 2 ^ 64
    → all (spares i t) os ≡ true
    → IsSound s
    → IsHeld i t s
    → IsHeld i t (act_all os s)
unfolding act_all
act_all-IsHeld [] s i t small sp sound h = h
act_all-IsHeld (o ∷ os) s i t small sp sound h =
    let first : s.counter + 1 < 2 ^ 64 = omega arith in
    act_all-IsHeld os (act o s) i t (omega (arith, act-counter o s first)) (ground arith)
      (act-IsSound o s first sound) (act-IsHeld o s i t (ground arith) sound h)

act_all-counter :
    (os : List Op) (s : Mutexes)
    → s.counter + length os < 2 ^ 64
    → (act_all os s).counter ≤ s.counter + length os
unfolding act_all
act_all-counter [] s small = omega arith
act_all-counter (o ∷ os) s small =
    let first : s.counter + 1 < 2 ^ 64 = omega arith in
    let step = act-counter o s first in
    omega (arith, step, act_all-counter os (act o s) (omega (arith, step)))

-- Two mutexes on one key exclude each other for as long as a lock lasts. From mutexes that hold no
-- lock at first, let fewer than 2 ^ 64 operations run by any mutexes at any times, behind which one
-- mutex can unlock, with a time at which its lock expires, and then operations of other mutexes,
-- none of which acquires behind that time. The mutex can still unlock, another one of its key
-- cannot, and an attempt of that other one to acquire up to that time fails.
pub act_all-held :
    (os later : List Op) (m : ℕ → MemoryMutex) (i j t now : ℕ)
    → ((k : ℕ) → (m k).owner_id ≡ none)
    → length os + length later < 2 ^ 64
    → can_unlock i (after os m) ≡ true
    → (own_entry i (after os m)).expires_at ≡ some t
    → all (spares i t) later ≡ true
    → j ≢ i
    → ((act_all later (after os m)).mutex j).key ≡ ((act_all later (after os m)).mutex i).key
    → now ≤ t
    → let s = act_all later (after os m) in
      (can_unlock i s ≡ true)
      × (can_unlock j s ≡ false)
      × ((try_acquire now s.counter (own_entry j s) (s.mutex j)).acquired ≡ false)
act_all-held os later m i j t now fresh small c x sp other k le =
    let start : Mutexes = record { locks = []; counter = 0; mutex = m } in
    let few : start.counter + length os < 2 ^ 64 = omega (arith, small) in
    let sound = act_all-IsSound os start few (fresh-IsSound m fresh) in
    let few' : (after os m).counter + length later < 2 ^ 64 =
      omega (arith, small, act_all-counter os start few) in
    let s = act_all later (after os m) in
    let h =
      act_all-IsHeld later (after os m) i t few' sp sound (record { unlockable = c; until = x }) in
    let same = ap (λ x. entry_of x s.locks) k in
    (
      h.unlockable,
      alone i j s (act_all-IsSound later (after os m) few' sound) h.unlockable other k,
      (try_acquire-held now s.counter t (own_entry j s) (s.mutex j)
          (ap (λ (e : MemoryLockEntry). e.held) same ∙ (can_unlock-holds i s h.unlockable).0)
          (ap (λ (e : MemoryLockEntry). e.expires_at) same ∙ h.until) le).1,
    )
