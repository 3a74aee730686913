-- ===== src/Tracker/Record.antt =====
-- Each resource is recorded once, as it was first met.
use kube_min_cli.Base.{
  ℕ, suc, ◌≤◌, ◌≡◌, ◌≢◌, refl, sym, ◌∙◌, ap, true, false, Option, some, none, List, [], ◌∷◌, ◌++◌,
  text_eq_iff, any, if◌then◌else◌, arith, Bool-cases, inl, inr, append_assoc, append-nil, ◌+◌,
}
use kube_min_cli.Config.{ResourceKind}
use kube_min_cli.Tracker.{ResourceRef, same_kind, same_resource, add, add_all}

true_not_false : true ≢ false
true_not_false e = cc

-- The first record of a resource.
abbrev pub find : ResourceRef → List ResourceRef → Option ResourceRef
find ref [] = none
find ref (r ∷ rs) = let rest = find ref rs in if same_resource r ref then some r else rest

find-append :
    (ref : ResourceRef) (rs ss : List ResourceRef)
    → find ref (rs ++ ss) ≡ (if any (λ r. same_resource r ref) rs then find ref rs else find ref ss)
find-append ref [] ss = refl
find-append ref (r ∷ rs) ss = ground (arith, find-append ref rs ss)

kind_trans : (a b c : ResourceKind) → same_kind a b ≡ true → same_kind b c ≡ same_kind a c
unfolding same_kind
kind_trans a b c h = ground arith

resource_trans :
    (a b c : ResourceRef)
    → same_resource a b ≡ true
    → same_resource b c ≡ true
    → same_resource a c ≡ true
unfolding same_resource
resource_trans a b c h k = ground (
  arith,
  kind_trans a.kind b.kind c.kind,
  text_eq_iff a.namespace b.namespace,
  text_eq_iff a.name b.name,
)

any_trans :
    (b c : ResourceRef) (rs : List ResourceRef)
    → any (λ r. same_resource r b) rs ≡ true
    → same_resource b c ≡ true
    → any (λ r. same_resource r c) rs ≡ true
any_trans b c [] h k = ground arith
any_trans b c (r ∷ rs) h k = ground (arith, any_trans b c rs, resource_trans r b c)

find-again :
    (ref r : ResourceRef) (ts rs : List ResourceRef)
    → any (λ t. same_resource t r) ts ≡ true
    → find ref (ts ++ rs) ≡ find ref (ts ++ (r ∷ rs))
find-again ref r ts rs h =
    ground (arith, find-append ref ts rs, find-append ref ts (r ∷ rs), any_trans r ref ts h)

find-add :
    (ref r : ResourceRef) (ts rs : List ResourceRef)
    → find ref (add r ts ++ rs) ≡ find ref (ts ++ (r ∷ rs))
unfolding add
find-add ref r ts rs = elim (Bool-cases (any (λ t. same_resource t r) ts)) [
  | inl known ↦ rw known (find-again ref r ts rs known)
  | inr fresh ↦ rw fresh (ap (find ref) (append_assoc ts (r ∷ []) rs))
]

find-add_all :
    (ref : ResourceRef) (rs ts : List ResourceRef) → find ref (add_all rs ts) ≡ find ref (ts ++ rs)
unfolding add_all
find-add_all ref [] ts = ap (find ref) (sym (append-nil ts))
find-add_all ref (r ∷ rs) ts = find-add_all ref rs (add r ts) ∙ find-add ref r ts rs

-- How often a resource stands in the tracker.
abbrev pub count_same : ResourceRef → List ResourceRef → ℕ
count_same ref [] = 0
count_same ref (r ∷ rs) =
    let rest = count_same ref rs in if same_resource r ref then suc rest else rest

count-add_fresh :
    (ref r : ResourceRef) (ts : List ResourceRef)
    → count_same ref (ts ++ (r ∷ [])) ≡ count_same ref ts + (if same_resource r ref then 1 else 0)
count-add_fresh ref r [] = ground arith
count-add_fresh ref r (t ∷ ts) = ground (arith, count-add_fresh ref r ts)

count_absent :
    (ref : ResourceRef) (ts : List ResourceRef)
    → any (λ t. same_resource t ref) ts ≡ false
    → count_same ref ts ≡ 0
count_absent ref [] h = refl
count_absent ref (t ∷ ts) h = ground (arith, count_absent ref ts)

kind_sym : (a b : ResourceKind) → same_kind a b ≡ true → same_kind b a ≡ true
unfolding same_kind
kind_sym a b h = ground arith

resource_sym : (a b : ResourceRef) → same_resource a b ≡ true → same_resource b a ≡ true
unfolding same_resource
resource_sym a b h = ground (
  arith,
  kind_sym a.kind b.kind,
  text_eq_iff a.namespace b.namespace,
  text_eq_iff a.name b.name,
  text_eq_iff b.namespace a.namespace,
  text_eq_iff b.name a.name,
)

fresh_for :
    (ref r : ResourceRef) (ts : List ResourceRef)
    → any (λ t. same_resource t r) ts ≡ false
    → same_resource r ref ≡ true
    → any (λ t. same_resource t ref) ts ≡ false
fresh_for ref r ts h k = elim (Bool-cases (any (λ t. same_resource t ref) ts)) [
  | inl known ↦ absurd (true_not_false (sym (any_trans ref r ts known (resource_sym r ref k)) ∙ h))
  | inr fresh ↦ fresh
]

count-add :
    (ref r : ResourceRef) (ts : List ResourceRef)
    → count_same ref ts ≤ 1
    → count_same ref (add r ts) ≤ 1
unfolding add
count-add ref r ts h = elim (Bool-cases (any (λ t. same_resource t r) ts)) [
  | inl known ↦ rw known h
  | inr fresh ↦ rw fresh (elim (Bool-cases (same_resource r ref)) [
    | inl same ↦
        ground
          (arith, count-add_fresh ref r ts, count_absent ref ts (fresh_for ref r ts fresh same))
    | inr other ↦ ground (arith, count-add_fresh ref r ts)
  ])
]

count-add_all :
    (ref : ResourceRef) (rs ts : List ResourceRef)
    → count_same ref ts ≤ 1
    → count_same ref (add_all rs ts) ≤ 1
unfolding add_all
count-add_all ref [] ts h = h
count-add_all ref (r ∷ rs) ts h = count-add_all ref rs (add r ts) (count-add ref r ts h)

-- A tracker holds every resource at most once, with the record that was made of it first: a resource
-- that was observed first is never marked as created later.
pub add_all-first :
    (ref : ResourceRef) (rs : List ResourceRef)
    → (find ref (add_all rs []) ≡ find ref rs) × (count_same ref (add_all rs []) ≤ 1)
add_all-first ref rs = (find-add_all ref rs [], count-add_all ref rs [] (omega arith))
