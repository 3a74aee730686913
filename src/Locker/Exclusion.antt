-- ===== src/Locker/Exclusion.antt =====
-- Mutual exclusion among the mutexes of one process.
use kube_min_cli.Base.{
  ℕ, ◌+◌, ◌^◌, ◌≤◌, ◌<◌, ◌≡◌, ◌≢◌, ap, ==_iff, refl, sym, ◌∙◌, true, false, Option, some, none,
  List, [], ◌∷◌, lookup, arith, Bool-cases, inl, inr, length,
}
use kube_min_cli.Locker.{
  OwnerId, MemoryMutex, entry_of, same_owner, generate_owner_id, try_acquire, unlock,
}
use kube_min_cli.Locker.Mutexes.{
  Mutexes, Op, acquires, unlocks, extends, own_entry, act, act_all, can_unlock, has_owner, IsSound,
  entry_of-is_owned, insert-owned, unlock-is_owned, extend-is_owned, try_acquire-is_owned,
}
use kube_min_cli.Locker.Owners.{owner, acquires-below, acquires-apart}

pub act-IsSound : (o : Op) (s : Mutexes) → s.counter + 1 < 2 ^ 64 → IsSound s → IsSound (act o s)
unfolding act owner
act-IsSound (acquires i now) s small h = record {
  below = λ j o e. acquires-below i j now s o small h e;
  apart = λ j k o p e f n. acquires-apart i j k now s o p small h e f n;
  owned = λ k e found.
      insert-owned (s.mutex i).key k _ e s h
        (try_acquire-is_owned now s.counter (own_entry i s) (s.mutex i)
          (entry_of-is_owned (s.mutex i).key s h))
        found;
}
act-IsSound (unlocks i) s small h = record {
  below = h.below;
  apart = h.apart;
  owned = λ k e found.
      insert-owned (s.mutex i).key k _ e s h
        (unlock-is_owned (own_entry i s) (s.mutex i) (entry_of-is_owned (s.mutex i).key s h)) found;
}
act-IsSound (extends i now) s small h = record {
  below = h.below;
  apart = h.apart;
  owned = λ k e found.
      insert-owned (s.mutex i).key k _ e s h
        (extend-is_owned now (own_entry i s) (s.mutex i) (entry_of-is_owned (s.mutex i).key s h))
        found;
}

pub act-counter :
    (o : Op) (s : Mutexes) → s.counter + 1 < 2 ^ 64 → (act o s).counter ≤ s.counter + 1
unfolding act try_acquire generate_owner_id
act-counter (acquires i now) s small = ground arith
act-counter (unlocks i) s small = omega arith
act-counter (extends i now) s small = omega arith

pub act_all-IsSound :
    (os : List Op) (s : Mutexes)
    → s.counter + length os < 2 ^ 64
    → IsSound s
    → IsSound (act_all os s)
unfolding act_all
act_all-IsSound [] s small h = h
act_all-IsSound (o ∷ os) s small h =
    let first : s.counter + 1 < 2 ^ 64 = omega arith in
    act_all-IsSound os (act o s) (omega (arith, act-counter o s first)) (act-IsSound o s first h)

pub act-key : (o : Op) (s : Mutexes) (i : ℕ) → ((act o s).mutex i).key ≡ (s.mutex i).key
unfolding act try_acquire
act-key (acquires j now) s i = ground (arith, ==_iff i j)
act-key (unlocks j) s i = refl
act-key (extends j now) s i = refl

-- What it takes to unlock: the entry is held by the mutex's own id.
pub can_unlock-holds :
    (i : ℕ) (s : Mutexes)
    → can_unlock i s ≡ true
    → ((own_entry i s).held ≡ true) × (same_owner (own_entry i s).owner (s.mutex i).owner_id ≡ true)
unfolding can_unlock unlock
can_unlock-holds i s h = ground arith

same_owner_found :
    (a b : Option OwnerId)
    → has_owner a ≡ true
    → same_owner a b ≡ true
    → (o p : OwnerId) × (a ≡ some o) × (b ≡ some p) × (o.number ≡ p.number)
unfolding same_owner
same_owner_found none b h e = absurd (ground arith)
same_owner_found (some o) none h e = absurd (ground arith)
same_owner_found (some o) (some p) h e = (o, p, refl, refl, ground arith)

holder :
    (i : ℕ) (s : Mutexes)
    → IsSound s
    → can_unlock i s ≡ true
    → (o p : OwnerId) × ((own_entry i s).owner ≡ some o)
      × ((s.mutex i).owner_id ≡ some p)
      × (o.number ≡ p.number)
holder i s h c =
    let (held, same) = can_unlock-holds i s c in
    let owned = entry_of-is_owned (s.mutex i).key s h in
    same_owner_found (own_entry i s).owner (s.mutex i).owner_id (ground arith) same

pub exclusive :
    (i j : ℕ) (s : Mutexes)
    → IsSound s
    → (s.mutex i).key ≡ (s.mutex j).key
    → can_unlock i s ≡ true
    → can_unlock j s ≡ true
    → i ≡ j
exclusive i j s h k ci cj =
    let (o, p, a, b, n) = holder i s h ci in
    let (o', p', a', b', n') = holder j s h cj in
    let same : some o ≡ some o' = sym a ∙ (ap (λ x. (entry_of x s.locks).owner) k ∙ a') in
    let number : o.number ≡ o'.number = cc in h.apart i j p p' b b' (omega (arith, n, n', number))

none_is_none : {A : Type 0} {a : A} → none ≡ some a → ⊥
none_is_none e = cc

-- The state after a list of operations, from mutexes of a new locker on.
abbrev pub after : List Op → (ℕ → MemoryMutex) → Mutexes
after os m = act_all os (record { locks = []; counter = 0; mutex = m })

pub fresh-IsSound :
    (m : ℕ → MemoryMutex)
    → ((k : ℕ) → (m k).owner_id ≡ none)
    → IsSound (record { locks = []; counter = 0; mutex = m })
unfolding lookup
fresh-IsSound m fresh = record {
  below = λ a o e. absurd (none_is_none (sym (fresh a) ∙ e));
  apart = λ a b o p e f n. absurd (none_is_none (sym (fresh a) ∙ e));
  owned = λ q e found. absurd (none_is_none found);
}

-- Two mutexes on one key never hold its lock at the same time: for mutexes that hold no lock at
-- first, after fewer than 2 ^ 64 operations, each by any of the mutexes at any time, no mutex of a
-- key can unlock it while another one can.
pub act_all-exclusive :
    (os : List Op) (m : ℕ → MemoryMutex) (i j : ℕ)
    → ((k : ℕ) → (m k).owner_id ≡ none)
    → length os < 2 ^ 64
    → ((after os m).mutex i).key ≡ ((after os m).mutex j).key
    → i ≢ j
    → can_unlock i (after os m) ≡ true
    → can_unlock j (after os m) ≡ false
act_all-exclusive os m i j fresh small k apart ci = elim (Bool-cases (can_unlock j (after os m))) [
  | inl cj ↦ absurd (
      apart (
        exclusive i j (after os m)
          (act_all-IsSound os _ (omega (arith, small)) (fresh-IsSound m fresh)) k ci cj))
  | inr free ↦ free
]
