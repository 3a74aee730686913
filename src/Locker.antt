-- ===== src/Locker.antt =====
-- pkg/apiserver/infrastructure/locker/memory.go: locks in memory, with owners and an expiry.
-- An owner id "mem-<nanoseconds>-<number>" is the pair of its numbers, and no owner is `none`. Times
-- are numbers of nanoseconds, the zero time is `none`. The mutex of an entry makes every operation
-- one step; a `MemoryMutex` holds a pointer to its entry, here the entry under its key.
pub mod Mutexes
pub mod Owners
pub mod Exclusion
pub mod Held
pub mod Retry
pub mod Tests
use kube_min_cli.Base.{
  ℕ, suc, ◌+◌, ◌%◌, ◌^◌, Bool, true, false, not, ◌&&◌, ◌||◌, Option, some, none, List, [], ◌∷◌,
  ◌++◌, Text, text, Dict, lookup, insert, is_nil, ltb, ◌==◌, if◌then◌else◌,
}

pub record OwnerId : Type 0 where
  pub nanos : ℕ
  pub number : ℕ

pub record MemoryLockEntry : Type 0 where
  pub held : Bool
  pub owner : Option OwnerId
  pub expires_at : Option ℕ

abbrev pub new_entry : MemoryLockEntry
new_entry = record { held = false; owner = none; expires_at = none }

-- A mutex with its options; `retry_count` is `none` where it is negative.
pub record MemoryMutex : Type 0 where
  pub key : Text
  pub ttl : ℕ
  pub retry_count : Option ℕ
  pub owner_id : Option OwnerId

pub record MemoryLocker : Type 0 where
  pub locks : Dict MemoryLockEntry
  pub prefix : Text
  pub closed : Bool

pub data LockError : Type 0 where
  context_error lock_acquire_failed lock_not_held locker_closed : LockError

unfoldable pub prefixed_key : MemoryLocker → Text → Text
prefixed_key l key = if is_nil l.prefix then key else l.prefix ++ text ":" ++ key

abbrev pub entry_of : Text → Dict MemoryLockEntry → MemoryLockEntry
entry_of k locks = elim (lookup k locks) [ none ↦ new_entry | some e ↦ e ]

-- `NewMutex`; a closed locker gives a mutex whose operations all fail with the error.
unfoldable pub new_mutex :
    MemoryLocker → Text → ℕ → Option ℕ → (Option MemoryMutex × Option LockError) × MemoryLocker
unfolding prefixed_key
new_mutex l key ttl retry_count =
    let full_key = prefixed_key l key in
    if l.closed then ((none, some locker_closed), l) else (
      (
        some (record { key = full_key; ttl = ttl; retry_count = retry_count; owner_id = none }),
        none,
      ),
      record l { locks = insert full_key (entry_of full_key l.locks) l.locks },
    )

unfoldable pub close : MemoryLocker → MemoryLocker
close l = record l { closed = true }

-- The counter is an int64, here its bit pattern.
unfoldable pub generate_owner_id : ℕ → ℕ → OwnerId
generate_owner_id now counter = record { nanos = now; number = (counter + 1) % 2 ^ 64 }

unfoldable pub same_owner : Option OwnerId → Option OwnerId → Bool
same_owner none none = true
same_owner none (some b) = false
same_owner (some a) none = false
same_owner (some a) (some b) = a.nanos == b.nanos && a.number == b.number

abbrev is_past : Option ℕ → ℕ → Bool
is_past none now = false
is_past (some t) now = ltb t now

-- An entry whose time is over is released.
unfoldable pub expire : ℕ → MemoryLockEntry → MemoryLockEntry
expire now e =
    if e.held && is_past e.expires_at now then record e { held = false; owner = none } else e

-- What `tryAcquire` leaves behind: its result, the entry, the mutex and the counter.
pub record Attempt : Type 0 where
  pub acquired : Bool
  pub entry : MemoryLockEntry
  pub mutex : MemoryMutex
  pub counter : ℕ

unfoldable pub try_acquire : ℕ → ℕ → MemoryLockEntry → MemoryMutex → Attempt
unfolding expire generate_owner_id
try_acquire now counter e₀ m =
    let e = expire now e₀ in
    let id = generate_owner_id now counter in
    if e.held
    then record { acquired = false; entry = e; mutex = m; counter = counter }
    else record {
      acquired = true;
      entry = record { held = true; owner = some id; expires_at = some (now + m.ttl) };
      mutex = record m { owner_id = some id };
      counter = id.number;
    }

unfoldable pub try_lock : Bool → ℕ → ℕ → MemoryLockEntry → MemoryMutex → Option LockError × Attempt
unfolding try_acquire
try_lock ctx_done now counter e m =
    if ctx_done
    then (some context_error, record { acquired = false; entry = e; mutex = m; counter = counter })
    else (let a = try_acquire now counter e m in
        (if a.acquired then none else some lock_acquire_failed, a))

unfoldable pub unlock : Bool → MemoryLockEntry → MemoryMutex → Option LockError × MemoryLockEntry
unlock ctx_done e m =
    if ctx_done
    then (some context_error, e)
    else if not e.held || not (same_owner e.owner m.owner_id)
    then (some lock_not_held, e)
    else (none, record { held = false; owner = none; expires_at = none })

unfoldable pub extend :
    Bool → ℕ → MemoryLockEntry → MemoryMutex → Option LockError × MemoryLockEntry
extend ctx_done now e m =
    if ctx_done
    then (some context_error, e)
    else if not e.held || not (same_owner e.owner m.owner_id)
    then (some lock_not_held, e)
    else (none, record e { expires_at = some (now + m.ttl) })

-- One turn of the loop of `Lock`: whether the context is done before it, what `tryAcquire` answers,
-- and whether the context is done before the wait is over.
pub record Turn : Type 0 where
  pub done_before : Bool
  pub acquires : Bool
  pub done_waiting : Bool

-- `retryCount >= 0 && attempts > retryCount`
abbrev exceeds : Option ℕ → ℕ → Bool
exceeds none attempts = false
exceeds (some n) attempts = ltb n attempts

-- `Lock` over the turns that it meets, from a number of attempts on: `none` while it waits, else its
-- error, if any.
unfoldable pub lock_from : Option ℕ → ℕ → List Turn → Option (Option LockError)
lock_from retry_count attempts [] = none
lock_from retry_count attempts (t ∷ ts) =
    let given_up = exceeds retry_count (suc attempts) in
    let rest = lock_from retry_count (suc attempts) ts in
    if t.done_before
    then some (some context_error)
    else if t.acquires
    then some none
    else if given_up
    then some (some lock_acquire_failed)
    else if t.done_waiting
    then some (some context_error)
    else rest
