-- ===== src/Locker/Retry.antt =====
-- How long `Lock` waits.
use kube_min_cli.Base.{
  ℕ, suc, ◌+◌, ◌≤◌, ◌<◌, ◌≡◌, ◌≢◌, Bool, true, not, ◌&&◌, some, none, List, [], ◌∷◌, ltb, arith,
  length, all, Bool-cases, inl, inr, ltb_false→le,
}
use kube_min_cli.Locker.{lock_acquire_failed, Turn, lock_from}

-- A turn that the context leaves alone and that does not get the lock.
abbrev pub is_refused : Turn → Bool
is_refused t = not t.done_before && not t.acquires && not t.done_waiting

lock_from-returns :
    (n attempts : ℕ) (ts : List Turn)
    → attempts ≤ n
    → n < attempts + length ts
    → lock_from (some n) attempts ts ≢ none
unfolding lock_from
lock_from-returns n attempts [] a l = absurd (omega arith)
lock_from-returns n attempts (t ∷ ts) a l = λ e. elim (Bool-cases (ltb n (suc attempts))) [
  | inl last ↦ ground arith
  | inr more ↦
      lock_from-returns n (suc attempts) ts (omega (arith, ltb_false→le n (suc attempts) more))
        (omega arith) (ground arith)
]

lock_from-refused :
    (n attempts : ℕ) (ts : List Turn)
    → attempts ≤ n
    → n < attempts + length ts
    → all is_refused ts ≡ true
    → lock_from (some n) attempts ts ≡ some (some lock_acquire_failed)
unfolding lock_from
lock_from-refused n attempts [] a l r = absurd (omega arith)
lock_from-refused n attempts (t ∷ ts) a l r = elim (Bool-cases (ltb n (suc attempts))) [
  | inl last ↦ ground arith
  | inr more ↦ ground (
    arith,
    lock_from-refused n (suc attempts) ts (omega (arith, ltb_false→le n (suc attempts) more))
        (omega arith),
  )
]

-- A `Lock` with at most `n` retries returns within `n + 1` attempts, whatever the attempts meet.
pub lock_returns : (n : ℕ) (ts : List Turn) → n < length ts → lock_from (some n) 0 ts ≢ none
lock_returns n ts l = lock_from-returns n 0 ts (omega arith) (omega (arith, l))

-- Where at least `n + 1` attempts are refused, and the context leaves them alone, a `Lock` with at
-- most `n` retries returns `ErrLockAcquireFailed`.
pub lock_gives_up :
    (n : ℕ) (ts : List Turn)
    → n < length ts
    → all is_refused ts ≡ true
    → lock_from (some n) 0 ts ≡ some (some lock_acquire_failed)
lock_gives_up n ts l r = lock_from-refused n 0 ts (omega arith) (omega (arith, l)) r
