-- ===== src/Locker/Owners.antt =====
-- The numbers of owner ids.
use kube_min_cli.Base.{
  ℕ, ◌+◌, ◌%◌, ◌^◌, ◌≤◌, ◌<◌, ◌≡◌, ◌⊎◌, refl, sym, ◌∙◌, Option, some, ◌==◌, arith, Bool-cases, inl,
  inr,
}
use kube_min_cli.Locker.{
  OwnerId, MemoryLockEntry, MemoryMutex, expire, generate_owner_id, try_acquire,
}
use kube_min_cli.Locker.Mutexes.{Mutexes, acquires, own_entry, act, IsSound}

-- An attempt leaves the mutex and the counter alone, or gives both the next number.
pub try_acquire-owner :
    (now counter : ℕ) (e : MemoryLockEntry) (m : MemoryMutex)
    → counter + 1 < 2 ^ 64
    → (((try_acquire now counter e m).mutex.owner_id ≡ m.owner_id)
        × ((try_acquire now counter e m).counter ≡ counter))
      ⊎ (((try_acquire now counter e m).mutex.owner_id
            ≡ some (record { nanos = now; number = counter + 1 }))
          × ((try_acquire now counter e m).counter ≡ counter + 1))
unfolding try_acquire generate_owner_id
try_acquire-owner now counter e m small = elim (Bool-cases (expire now e).held) [
  | inl held ↦ inl (rw (held, try_acquire) (refl, refl))
  | inr free ↦
      let small' : (counter + 1) % 2 ^ 64 ≡ counter + 1 = omega arith in
      inr (rw (free, try_acquire, small') (refl, refl))
]

unfoldable pub owner : ℕ → Mutexes → Option OwnerId
owner i s = (s.mutex i).owner_id

abbrev pub issued : ℕ → Mutexes → OwnerId
issued now s = record { nanos = now; number = s.counter + 1 }

-- After an attempt a mutex has the owner id that it had, or it is the one that got the next number.
pub acquires-owner :
    (i j now : ℕ) (s : Mutexes)
    → s.counter + 1 < 2 ^ 64
    → ((owner j (act (acquires i now) s) ≡ owner j s)
        × (s.counter ≤ (act (acquires i now) s).counter))
      ⊎ ((j ≡ i)
          × (owner j (act (acquires i now) s) ≡ some (issued now s))
          × ((act (acquires i now) s).counter ≡ s.counter + 1))
unfolding act owner
acquires-owner i j now s small =
    elim (try_acquire-owner now s.counter (own_entry i s) (s.mutex i) small) [
      | inl (same, kept) ↦ inl (ground arith)
      | inr (new, next) ↦ elim (Bool-cases (j == i)) [
        | inl mine ↦ inr (ground arith)
        | inr other ↦ inl (ground arith)
      ]
    ]

pub issued-number :
    (now : ℕ) (s : Mutexes) (o : OwnerId) → some (issued now s) ≡ some o → o.number ≡ s.counter + 1
issued-number now s o e = cc

pub acquires-below :
    (i j now : ℕ) (s : Mutexes) (o : OwnerId)
    → s.counter + 1 < 2 ^ 64
    → IsSound s
    → owner j (act (acquires i now) s) ≡ some o
    → o.number ≤ (act (acquires i now) s).counter
acquires-below i j now s o small h e = elim (acquires-owner i j now s small) [
  | inl (same, up) ↦
      let old : o.number ≤ s.counter = h.below j o (unfold owner in sym same ∙ e) in
      omega (arith, old, up)
  | inr (mine, new, next) ↦ let n = issued-number now s o (sym new ∙ e) in omega (arith, n, next)
]

pub acquires-apart :
    (i j k now : ℕ) (s : Mutexes) (o p : OwnerId)
    → s.counter + 1 < 2 ^ 64
    → IsSound s
    → owner j (act (acquires i now) s) ≡ some o
    → owner k (act (acquires i now) s) ≡ some p
    → o.number ≡ p.number
    → j ≡ k
acquires-apart i j k now s o p small h e f n = elim (acquires-owner i j now s small) [
  | inl (same, _) ↦
      let kept : (s.mutex j).owner_id ≡ some o = unfold owner in sym same ∙ e in
      elim (acquires-owner i k now s small) [
        | inl (same', _) ↦ h.apart j k o p kept (unfold owner in sym same' ∙ f) n
        | inr (mine, new, _) ↦
            let old : o.number ≤ s.counter = h.below j o kept in
            let next = issued-number now s p (sym new ∙ f) in absurd (omega (arith, old, next, n))
      ]
  | inr (mine, new, _) ↦
      let next = issued-number now s o (sym new ∙ e) in
      elim (acquires-owner i k now s small) [
        | inl (same, _) ↦
            let old : p.number ≤ s.counter = h.below k p (unfold owner in sym same ∙ f) in
            absurd (omega (arith, old, next, n))
        | inr (mine', _, _) ↦ mine ∙ sym mine'
      ]
]
