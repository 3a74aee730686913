-- ===== src/Locker/Mutexes.antt =====
-- The mutexes of one process over their shared entries and counter, and what holds of them.
use kube_min_cli.Base.{
  ℕ, ◌≤◌, ◌≡◌, refl, Bool, true, false, not, ◌||◌, Option, some, none, List, [], ◌∷◌, Text, text_eq,
  Dict, lookup, insert, lookup-insert, ◌==◌, if◌then◌else◌, arith, Bool-cases, Option-cases, inl,
  inr,
}
use kube_min_cli.Locker.{
  OwnerId, MemoryLockEntry, MemoryMutex, entry_of, expire, try_acquire, unlock, extend,
}

-- Mutexes by number, over the entries and the counter that they share.
pub record Mutexes : Type 0 where
  pub locks : Dict MemoryLockEntry
  pub counter : ℕ
  pub mutex : ℕ → MemoryMutex

-- What a mutex does, and when.
pub data Op : Type 0 where
  acquires : ℕ → ℕ → Op
  unlocks : ℕ → Op
  extends : ℕ → ℕ → Op

abbrev pub own_entry : ℕ → Mutexes → MemoryLockEntry
own_entry i s = entry_of (s.mutex i).key s.locks

unfoldable pub act : Op → Mutexes → Mutexes
unfolding try_acquire unlock extend
act (acquires i now) s =
    let a = try_acquire now s.counter (own_entry i s) (s.mutex i) in
    record {
      locks = insert (s.mutex i).key a.entry s.locks;
      counter = a.counter;
      mutex = λ j. if j == i then a.mutex else s.mutex j;
    }
act (unlocks i) s = record s {
  locks = insert (s.mutex i).key (unlock false (own_entry i s) (s.mutex i)).1 s.locks;
}
act (extends i now) s = record s {
  locks = insert (s.mutex i).key (extend false now (own_entry i s) (s.mutex i)).1 s.locks;
}

unfoldable pub act_all : List Op → Mutexes → Mutexes
unfolding act
act_all [] s = s
act_all (o ∷ os) s = act_all os (act o s)

-- Would `Unlock` of this mutex succeed now?
unfoldable pub can_unlock : ℕ → Mutexes → Bool
unfolding unlock
can_unlock i s = elim (unlock false (own_entry i s) (s.mutex i)).0 [ none ↦ true | some e ↦ false ]

-- A held entry has an owner.
abbrev pub has_owner : Option OwnerId → Bool
has_owner none = false
has_owner (some o) = true

abbrev pub is_owned : MemoryLockEntry → Bool
is_owned e = not e.held || has_owner e.owner

-- Owner ids are numbered up to the counter, no two mutexes share a number, and held entries have
-- owners.
pub record IsSound (s : Mutexes) : Type 0 where
  pub below : (i : ℕ) (o : OwnerId) → (s.mutex i).owner_id ≡ some o → o.number ≤ s.counter
  pub apart :
      (i j : ℕ) (o p : OwnerId)
      → (s.mutex i).owner_id ≡ some o
      → (s.mutex j).owner_id ≡ some p
      → o.number ≡ p.number
      → i ≡ j
  pub owned : (k : Text) (e : MemoryLockEntry) → lookup k s.locks ≡ some e → is_owned e ≡ true

pub entry_of-is_owned : (k : Text) (s : Mutexes) → IsSound s → is_owned (entry_of k s.locks) ≡ true
entry_of-is_owned k s h = elim (Option-cases (lookup k s.locks)) [
  | inl gone ↦ rw (gone, entry_of) refl
  | inr (e, found) ↦ rw (found, entry_of) (h.owned k e found)
]

pub insert-owned :
    (k j : Text) (e f : MemoryLockEntry) (s : Mutexes)
    → IsSound s
    → is_owned e ≡ true
    → lookup j (insert k e s.locks) ≡ some f
    → is_owned f ≡ true
insert-owned k j e f s h o found = elim (Bool-cases (text_eq k j)) [
  | inl same ↦ ground (arith, lookup-insert k j e s.locks)
  | inr other ↦ h.owned j f (ground (arith, lookup-insert k j e s.locks))
]

pub unlock-is_owned :
    (e : MemoryLockEntry) (m : MemoryMutex)
    → is_owned e ≡ true
    → is_owned (unlock false e m).1 ≡ true
unfolding unlock
unlock-is_owned e m o = ground arith

pub extend-is_owned :
    (now : ℕ) (e : MemoryLockEntry) (m : MemoryMutex)
    → is_owned e ≡ true
    → is_owned (extend false now e m).1 ≡ true
unfolding extend
extend-is_owned now e m o = ground arith

pub try_acquire-is_owned :
    (now counter : ℕ) (e : MemoryLockEntry) (m : MemoryMutex)
    → is_owned e ≡ true
    → is_owned (try_acquire now counter e m).entry ≡ true
unfolding try_acquire expire
try_acquire-is_owned now counter e m o = ground arith
