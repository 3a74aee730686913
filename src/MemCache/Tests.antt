-- ===== src/MemCache/Tests.antt =====
-- A trial of the cache, and the witness of its property.
use kube_min_cli.Base.{◌≡◌, refl, true, List, [], ◌∷◌, text, text_eq}
use kube_min_cli.MemCache.{MemCache, load}
use kube_min_cli.MemCache.Remembered.{
  Op, stores, loads, asks, cleans, act_all, recall_all, load-remembers,
}

abbrev small : MemCache
small = record { no_cache = true; items = []; ttl = 10 }

abbrev ops : List Op
ops =
    stores 1 (text "a") (text "x")
    ∷ stores 5 (text "b") (text "y")
    ∷ asks 6 (text "a")
    ∷ stores 8 (text "a") (text "z")
    ∷ cleans 16
    ∷ loads 16 (text "b")
    ∷ []

load-remembers_example : (load 18 (text "a") (act_all ops small)).0 ≡ text "z"
unfolding recall_all text_eq
load-remembers_example = load-remembers ops 18 (text "a") small refl refl
