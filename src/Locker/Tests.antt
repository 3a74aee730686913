-- ===== src/Locker/Tests.antt =====
-- Two mutexes on one key.
use kube_min_cli.Base.{
  ℕ, ◌≡◌, refl, true, false, none, List, [], ◌∷◌, text, text_eq, lookup, insert, arith,
}
use kube_min_cli.Locker.{
  MemoryMutex, try_acquire, unlock, extend, expire, generate_owner_id, same_owner,
}
use kube_min_cli.Locker.Mutexes.{
  Mutexes, own_entry, Op, acquires, unlocks, extends, act_all, act, can_unlock,
}
use kube_min_cli.Locker.Exclusion.{after}
use kube_min_cli.Locker.Held.{act_all-held}

abbrev mutexes : ℕ → MemoryMutex
mutexes i = record { key = text "job"; ttl = 10; retry_count = none; owner_id = none }

-- The lock of the first expires, and the second takes it.
abbrev takeover : List Op
takeover = acquires 0 1 ∷ acquires 1 5 ∷ acquires 1 12 ∷ extends 0 13 ∷ unlocks 0 ∷ []

abbrev later : List Op
later = acquires 0 14 ∷ extends 0 15 ∷ []

abbrev held : Mutexes
held = act_all later (after takeover mutexes)

act_all-held_example :
    (can_unlock 1 held ≡ true)
    × (can_unlock 0 held ≡ false)
    × ((try_acquire 16 held.counter (own_entry 0 held) (held.mutex 0)).acquired ≡ false)
unfolding act_all act can_unlock try_acquire unlock extend expire generate_owner_id same_owner
    lookup insert text_eq
act_all-held_example =
    act_all-held takeover later mutexes 1 0 22 16 (λ k. refl) (omega arith) refl refl refl
      (λ e. omega arith) refl (omega arith)
