-- ===== src/MemCache.antt =====
-- pkg/apiserver/utils/cache/mem_cache.go: the cache in memory. Times are numbers of nanoseconds, the
-- zero time is `none`, and a `ttl` that is not positive is 0. The mutex makes every operation one
-- step. The items that `List` gives come in the order of the dictionary, in Go in any.
pub mod Remembered
pub mod Tests
use kube_min_cli.Base.{
  ℕ, ◌+◌, ◌*◌, Bool, true, false, List, [], ◌∷◌, map, Option, some, none, Text, Dict, lookup,
  insert, delete, ltb, if◌then◌else◌,
}

pub record Item : Type 0 where
  pub value : Text
  pub expires_at : Option ℕ

pub record MemCache : Type 0 where
  pub no_cache : Bool
  pub items : Dict Item
  pub ttl : ℕ

-- `NewMemCache`: a day.
abbrev pub new_mem_cache : Bool → MemCache
new_mem_cache no_cache = record { no_cache = no_cache; items = []; ttl = 24 * (3600 * 1000000000) }

unfoldable pub is_expired : ℕ → Item → Bool
is_expired now i = elim i.expires_at [ none ↦ false | some t ↦ ltb t now ]

-- The item that `Store` makes.
abbrev pub new_item : ℕ → ℕ → Text → Item
new_item now ttl v = record { value = v; expires_at = if ltb 0 ttl then some (now + ttl) else none }

unfoldable pub store : ℕ → Text → Text → MemCache → MemCache
store now key v m = record m { items = insert key (new_item now m.ttl v) m.items }

abbrev pub drop_item : Text → MemCache → MemCache
drop_item key m = record m { items = delete key m.items }

-- `Load` gives the empty text for what is missing or over.
unfoldable pub load : ℕ → Text → MemCache → Text × MemCache
load now key m = elim (lookup key m.items) [
  | none ↦ ([], m)
  | some i ↦ if is_expired now i then ([], drop_item key m) else (i.value, m)
]

unfoldable pub exists : ℕ → Text → MemCache → Bool × MemCache
exists now key m = elim (lookup key m.items) [
  | none ↦ (false, m)
  | some i ↦ if is_expired now i then (false, drop_item key m) else (true, m)
]

unfoldable pub list : MemCache → List Text
list m = map (λ p. p.1.value) m.items

-- A tick of the cleaner of `NewMemCache`.
unfoldable pub keep_fresh : ℕ → Dict Item → Dict Item
keep_fresh now [] = []
keep_fresh now ((k, i) ∷ rest) =
    let kept = keep_fresh now rest in if is_expired now i then delete k kept else (k, i) ∷ kept

unfoldable pub clean : ℕ → MemCache → MemCache
clean now m = record m { items = keep_fresh now m.items }
