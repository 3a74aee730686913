-- ===== src/Store/OneRow.antt =====
-- A table of at most one task, which meets every law that `Gorm` states.
use kube_min_cli.Base.{
  ℕ, ◌≡◌, ◌≢◌, refl, sym, subst, Bool-cases, text_eq_refl, inl, inr, Bool, true, Option, some, none,
  List, [], ◌∷◌, Text, text_eq, text_eq_iff, if◌then◌else◌, arith, All,
}
use mathlib.Core.Option
use mathlib.Core.List.{Memᴰ}
use kube_min_cli.Config.{Status}
use kube_min_cli.Model.{WorkflowQueue}
use kube_min_cli.Store.{Gorm, Outcome, done, not_found, overlay, swap_status, affected}

abbrev pub row : Text → Option WorkflowQueue → Option WorkflowQueue
row k none = none
row k (some r) = if text_eq r.task_id k then some r else none

abbrev pub first : Text → Option WorkflowQueue → Outcome WorkflowQueue
first k none = not_found
first k (some r) = if text_eq r.task_id k then done r else not_found

abbrev pub updates :
    WorkflowQueue → Option WorkflowQueue → Outcome (Unit {0}) × Option WorkflowQueue
updates q none = (done tt, none)
updates q (some r) = (done tt, if text_eq q.task_id r.task_id then some (overlay q r) else some r)

abbrev pub update_where :
    Text → Status → Status → ℕ → Option WorkflowQueue → Outcome ℕ × Option WorkflowQueue
update_where k from to now t = (
  done (affected from (row k t)),
  elim (row k t) [ none ↦ t | some r ↦ swap_status from to now t ],
)

abbrev pub find_in : (Status → Bool) → Option WorkflowQueue → Outcome (List WorkflowQueue)
find_in p none = done []
find_in p (some r) = done (if p r.status then r ∷ [] else [])

pub first_row :
    (k : Text) (t : Option WorkflowQueue) (q : WorkflowQueue)
    → first k t ≡ done q
    → row k t ≡ some q
first_row k none q h = cc
first_row k (some r) q h = ground arith

pub row_id :
    (k : Text) (t : Option WorkflowQueue) (q : WorkflowQueue) → row k t ≡ some q → q.task_id ≡ k
row_id k none q h = cc
row_id k (some r) q h = ground (arith, text_eq_iff r.task_id k)

pub updates_row :
    (q : WorkflowQueue) (t : Option WorkflowQueue) (j : Text)
    → (updates q t).0 ≡ done tt
    → row j (updates q t).1
      ≡ (if text_eq q.task_id j then Option.map (overlay q) (row j t) else row j t)
unfolding overlay
updates_row q none j h = ground arith
updates_row q (some r) j h =
    ground
      (arith, text_eq_iff q.task_id j, text_eq_iff r.task_id j, text_eq_iff q.task_id r.task_id)

pub updates_kept :
    (q : WorkflowQueue) (t : Option WorkflowQueue) (j : Text)
    → (updates q t).0 ≢ done tt
    → row j (updates q t).1 ≡ row j t
updates_kept q none j h = refl
updates_kept q (some r) j h = absurd (h refl)

pub where_row :
    (k : Text) (from to : Status) (now : ℕ) (t : Option WorkflowQueue) (n : ℕ) (j : Text)
    → (update_where k from to now t).0 ≡ done n
    → row j (update_where k from to now t).1
      ≡ (if text_eq k j then swap_status from to now (row j t) else row j t)
unfolding swap_status
where_row k from to now none n j h = ground arith
where_row k from to now (some r) n j h =
    ground (arith, text_eq_iff k j, text_eq_iff r.task_id j, text_eq_iff r.task_id k)

pub where_count :
    (k : Text) (from to : Status) (now : ℕ) (t : Option WorkflowQueue) (n : ℕ)
    → (update_where k from to now t).0 ≡ done n
    → n ≡ affected from (row k t)
where_count k from to now t n h = ground arith

pub where_kept :
    (k : Text) (from to : Status) (now : ℕ) (t : Option WorkflowQueue) (j : Text)
    → ((n : ℕ) → (update_where k from to now t).0 ≢ done n)
    → row j (update_where k from to now t).1 ≡ row j t
where_kept k from to now t j h = absurd (h _ refl)

listed : {qs rs : List WorkflowQueue} → done qs ≡ done rs → qs ≡ rs
listed h = cc

pub find_sound :
    (p : Status → Bool) (t : Option WorkflowQueue) (qs : List WorkflowQueue)
    → find_in p t ≡ done qs
    → All (λ q. (row q.task_id t ≡ some q) × (p q.status ≡ true)) qs
find_sound p none qs h =
    subst (All λ q. (row q.task_id none ≡ some q) × (p q.status ≡ true)) (listed h) tt
find_sound p (some r) qs h = elim (Bool-cases (p r.status)) [
  | inl e ↦
      subst (All λ q. (row q.task_id (some r) ≡ some q) × (p q.status ≡ true)) (listed (rw e at h))
        ((rw (text_eq_refl r.task_id), e), tt)
  | inr e ↦
      subst (All λ q. (row q.task_id (some r) ≡ some q) × (p q.status ≡ true)) (listed (rw e at h))
        tt
]

pub find_complete :
    (p : Status → Bool) (t : Option WorkflowQueue) (qs : List WorkflowQueue) (k : Text)
    (q : WorkflowQueue)
    → find_in p t ≡ done qs
    → row k t ≡ some q
    → p q.status ≡ true
    → Memᴰ q qs
find_complete p none qs k q h e a = cc
find_complete p (some r) qs k q h e a =
    let same : r ≡ q = ground arith in
    let one : p r.status ≡ true = rw same a in
    subst (Memᴰ q) (listed (rw one at h)) (Memᴰ.head (sym same))

abbrev pub one_row : Gorm
one_row = record {
  Table = Option WorkflowQueue;
  row = row;
  clock = λ t. 9;
  first = first;
  updates = updates;
  update_where = update_where;
  find_in = find_in;
  clock_positive = λ t. omega arith;
  first_row = first_row;
  row_id = row_id;
  updates_row = updates_row;
  updates_kept = updates_kept;
  where_row = where_row;
  where_count = where_count;
  where_kept = where_kept;
  find_sound = find_sound;
  find_complete = find_complete;
}
