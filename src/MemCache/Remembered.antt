-- ===== src/MemCache/Remembered.antt =====
-- What a load finds after a run of operations, against a description without items or expiry.
use kube_min_cli.Base.{
  ℕ, ◌+◌, ◌≤◌, ◌≡◌, refl, subst, ◌∙◌, ap, true, ◌||◌, List, [], ◌∷◌, Option, some, none, Text, Dict,
  text_eq, text_eq_iff, lookup, lookup-insert, lookup-delete, delete, leb, ◌==◌, if◌then◌else◌,
  arith, all, Option-cases, inl, inr,
}
use kube_min_cli.MemCache.{
  Item, MemCache, new_item, is_expired, store, load, exists, keep_fresh, clean,
}

-- An operation, at its time.
pub data Op : Type 0 where
  stores : ℕ → Text → Text → Op
  loads asks : ℕ → Text → Op
  cleans : ℕ → Op

abbrev pub time : Op → ℕ
time (stores t k d) = t
time (loads t k) = t
time (asks t k) = t
time (cleans t) = t

unfoldable pub act : Op → MemCache → MemCache
act (stores t k d) m = store t k d m
act (loads t k) m = (load t k m).1
act (asks t k) m = (exists t k m).1
act (cleans t) m = clean t m

unfoldable pub act_all : List Op → MemCache → MemCache
act_all [] m = m
act_all (o ∷ rest) m = act_all rest (act o m)

abbrev fresh_value : ℕ → Option Item → Option Text
fresh_value now none = none
fresh_value now (some i) = if is_expired now i then none else some i.value

-- The value under the key that is not over.
unfoldable visible : ℕ → Text → Dict Item → Option Text
visible now k items = fresh_value now (lookup k items)

abbrev or_empty : Option Text → Text
or_empty none = []
or_empty (some v) = v

-- What is stored last counts for `ttl`, for ever where that is 0.
abbrev pub recall : ℕ → ℕ → Text → Op → Option Text → Option Text
recall ttl now k (stores t j d) old =
    if text_eq j k then (if (ttl == 0) || leb now (t + ttl) then some d else none) else old
recall ttl now k (loads t j) old = old
recall ttl now k (asks t j) old = old
recall ttl now k (cleans t) old = old

unfoldable pub recall_all : ℕ → ℕ → Text → List Op → Option Text → Option Text
recall_all ttl now k [] old = old
recall_all ttl now k (o ∷ rest) old = recall_all ttl now k rest (recall ttl now k o old)

expired_later : (s t : ℕ) (i : Item) → s ≤ t → is_expired s i ≡ true → is_expired t i ≡ true
unfolding is_expired
expired_later s t i le h = ground arith

visible-keep_fresh :
    (t now : ℕ) (k : Text) (items : Dict Item)
    → t ≤ now
    → visible now k (keep_fresh t items) ≡ visible now k items
unfolding visible keep_fresh lookup
visible-keep_fresh t now k [] le = refl
visible-keep_fresh t now k ((j, i) ∷ rest) le = ground (
  arith,
  lookup-delete j k (keep_fresh t rest),
  visible-keep_fresh t now k rest le,
  expired_later t now i le,
)

visible-drop_item :
    (t now : ℕ) (j k : Text) (i : Item) (items : Dict Item)
    → t ≤ now
    → lookup j items ≡ some i
    → is_expired t i ≡ true
    → visible now k (delete j items) ≡ visible now k items
unfolding visible
visible-drop_item t now j k i items le found over =
    ground (arith, lookup-delete j k items, text_eq_iff j k, expired_later t now i le over, found)

visible-store :
    (t now : ℕ) (j k d : Text) (m : MemCache)
    → visible now k (store t j d m).items
      ≡ recall m.ttl now k (stores t j d) (visible now k m.items)
unfolding visible store is_expired
visible-store t now j k d m = ground (arith, lookup-insert j k (new_item t m.ttl d) m.items)

visible-load :
    (t now : ℕ) (j k : Text) (m : MemCache)
    → t ≤ now
    → visible now k (load t j m).1.items ≡ visible now k m.items
unfolding load
visible-load t now j k m le = elim (Option-cases (lookup j m.items)) [
  | inl gone ↦ ground (arith, gone)
  | inr (i, found) ↦ ground (arith, found, visible-drop_item t now j k i m.items le found)
]

visible-exists :
    (t now : ℕ) (j k : Text) (m : MemCache)
    → t ≤ now
    → visible now k (exists t j m).1.items ≡ visible now k m.items
unfolding exists
visible-exists t now j k m le = elim (Option-cases (lookup j m.items)) [
  | inl gone ↦ ground (arith, gone)
  | inr (i, found) ↦ ground (arith, found, visible-drop_item t now j k i m.items le found)
]

visible-act :
    (o : Op) (now : ℕ) (k : Text) (m : MemCache)
    → time o ≤ now
    → visible now k (act o m).items ≡ recall m.ttl now k o (visible now k m.items)
unfolding act clean
visible-act (stores t j d) now k m le = visible-store t now j k d m
visible-act (loads t j) now k m le = visible-load t now j k m le
visible-act (asks t j) now k m le = visible-exists t now j k m le
visible-act (cleans t) now k m le = visible-keep_fresh t now k m.items le

act-ttl : (o : Op) (m : MemCache) → (act o m).ttl ≡ m.ttl
unfolding act store load exists clean
act-ttl (stores t j d) m = refl
act-ttl (loads t j) m = ground arith
act-ttl (asks t j) m = ground arith
act-ttl (cleans t) m = refl

visible-act_all :
    (os : List Op) (now : ℕ) (k : Text) (m : MemCache)
    → all (λ o. leb (time o) now) os ≡ true
    → visible now k (act_all os m).items ≡ recall_all m.ttl now k os (visible now k m.items)
unfolding act_all recall_all
visible-act_all [] now k m le = refl
visible-act_all (o ∷ rest) now k m le =
    visible-act_all rest now k (act o m) (ground arith)
    ∙ rw (act-ttl o m, visible-act o now k m (ground arith)) refl

load-visible :
    (now : ℕ) (k : Text) (m : MemCache) → (load now k m).0 ≡ or_empty (visible now k m.items)
unfolding load visible
load-visible now k m = ground arith

-- After operations of which none is later than `now`, a load at `now` from a cache that was empty
-- before them gives what was stored last under its key, for as long as the cache keeps it, and else
-- the empty text. Loads, tests and the cleaner change nothing of that.
pub load-remembers :
    (os : List Op) (now : ℕ) (k : Text) (m : MemCache)
    → m.items ≡ []
    → all (λ o. leb (time o) now) os ≡ true
    → (load now k (act_all os m)).0 ≡ or_empty (recall_all m.ttl now k os none)
unfolding visible lookup
load-remembers os now k m empty le =
    let found : visible now k m.items ≡ none = rw empty refl in
    load-visible now k (act_all os m)
    ∙ ap or_empty (
        subst (λ v. visible now k (act_all os m).items ≡ recall_all m.ttl now k os v) found
          (visible-act_all os now k m le))
