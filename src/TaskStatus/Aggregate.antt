-- ===== src/TaskStatus/Aggregate.antt =====
-- What a component's status says of the rows of its jobs.
use kube_min_cli.Base.{
  ◌≤◌, ◌≡◌, refl, subst, sym, ◌∙◌, ap, Bool, true, false, not, ◌||◌, Option, some, none, List, [],
  ◌∷◌, Text, text_eq, text_eq_iff, Dict, lookup, insert, lookup-insert, is_nil, ◌==◌, any,
  if◌then◌else◌, arith, Bool-cases, inl, inr, All,
}
use kube_min_cli.Naming.{Unicode, to_lower}
use kube_min_cli.TaskStatus.{
  JobInfo, ComponentTaskStatus, severity, choose_agg_status, first_status, add_job, aggregate,
}

-- The rows of one component, one after another.
abbrev pub add_jobs : Option ComponentTaskStatus → List JobInfo → Option ComponentTaskStatus
add_jobs a [] = a
add_jobs a (j ∷ js) = add_jobs (some (add_job a j)) js

found :
    (k j : Text) (a : ComponentTaskStatus) (m : Dict ComponentTaskStatus)
    → text_eq k j ≡ true
    → lookup j (insert k a m) ≡ some a
found k j a m h = ground (arith, lookup-insert k j a m)

passed_over :
    (k j : Text) (a : ComponentTaskStatus) (m : Dict ComponentTaskStatus)
    → text_eq k j ≡ false
    → lookup j (insert k a m) ≡ lookup j m
passed_over k j a m h = ground (arith, lookup-insert k j a m)

module _ (u : Unicode) where
  -- The rows of the component with a key.
  abbrev pub rows_of : Text → List JobInfo → List JobInfo
  rows_of k [] = []
  rows_of k (j ∷ js) =
      let rest = rows_of k js in if text_eq (to_lower u j.service_name) k then j ∷ rest else rest

  aggregate-lookup :
      (k : Text) (js : List JobInfo) (m : Dict ComponentTaskStatus)
      → lookup k (aggregate u js m) ≡ add_jobs (lookup k m) (rows_of k js)
  unfolding aggregate
  aggregate-lookup k [] m = refl
  aggregate-lookup k (j ∷ js) m =
      let key = to_lower u j.service_name in
      let new = add_job (lookup key m) j in
      let rest = aggregate-lookup k js (insert key new m) in
      elim (Bool-cases (text_eq key k)) [
        | inl same ↦ rw same (
            rest
            ∙ ap (λ x. add_jobs x (rows_of k js))
                (found key k new m same
                  ∙ ap some (ap (λ x. add_job (lookup x m) j) ((text_eq_iff key k).0 same))))
        | inr other ↦
            rw other (rest ∙ ap (λ x. add_jobs x (rows_of k js)) (passed_over key k new m other))
      ]

  -- The status of a component is made of its own rows alone, in their order.
  pub aggregate-rows_of :
      (k : Text) (js : List JobInfo) → lookup k (aggregate u js []) ≡ add_jobs none (rows_of k js)
  aggregate-rows_of k js = unfold lookup in aggregate-lookup k js []

-- One status is at most as severe as another one, ends no later, and has an error only if that has.
pub record AtMost (a b : ComponentTaskStatus) : Type 0 where
  pub severe : severity a.status ≤ severity b.status
  pub ended : a.end_time ≤ b.end_time
  pub failing : (not (is_nil b.error) || is_nil a.error) ≡ true

AtMost-trans : (a b c : ComponentTaskStatus) → AtMost a b → AtMost b c → AtMost a c
AtMost-trans a b c p q = record {
  severe = omega (arith, p.severe, q.severe);
  ended = omega (arith, p.ended, q.ended);
  failing = ground (arith, p.failing, q.failing);
}

AtMost-refl : (a : ComponentTaskStatus) → AtMost a a
AtMost-refl a = record { severe = omega arith; ended = omega arith; failing = ground arith }

add_job-AtMost : (a : ComponentTaskStatus) (j : JobInfo) → AtMost a (add_job (some a) j)
unfolding add_job choose_agg_status
add_job-AtMost a j = record { severe = ground arith; ended = ground arith; failing = ground arith }

row-AtMost : (o : Option ComponentTaskStatus) (j : JobInfo) → AtMost (first_status j) (add_job o j)
unfolding add_job choose_agg_status
row-AtMost none j = AtMost-refl (first_status j)
row-AtMost (some a) j = record {
  severe = ground arith;
  ended = ground arith;
  failing = ground arith;
}

-- The aggregate is at least what was there, and each row.
add_jobs-AtMost :
    (a b : ComponentTaskStatus) (js : List JobInfo)
    → add_jobs (some a) js ≡ some b
    → AtMost a b × All (λ j. AtMost (first_status j) b) js
add_jobs-AtMost a b [] h =
    let same : a ≡ b = cc in (subst (λ x. AtMost a x) same (AtMost-refl a), tt)
add_jobs-AtMost a b (j ∷ js) h =
    let (up, rest) = add_jobs-AtMost (add_job (some a) j) b js h in
    (
      AtMost-trans a (add_job (some a) j) b (add_job-AtMost a j) up,
      (AtMost-trans (first_status j) (add_job (some a) j) b (row-AtMost (some a) j) up, rest),
    )

-- The rows have one whose status is as severe as `b`.
abbrev pub attains : ComponentTaskStatus → List JobInfo → Bool
attains b js = any (λ (j : JobInfo). severity j.status == severity b.status) js

add_job-attains :
    (a b : ComponentTaskStatus) (j : JobInfo) (rest : Bool)
    → ((severity b.status == severity (add_job (some a) j).status) || rest) ≡ true
    → ((severity b.status == severity a.status)
        || ((severity j.status == severity b.status) || rest))
      ≡ true
unfolding add_job choose_agg_status
add_job-attains a b j rest h = ground arith

add_jobs-attains :
    (a b : ComponentTaskStatus) (js : List JobInfo)
    → add_jobs (some a) js ≡ some b
    → ((severity b.status == severity a.status) || attains b js) ≡ true
add_jobs-attains a b [] h =
    let same : a ≡ b = cc in
    subst (λ x. ((severity x.status == severity a.status) || false) ≡ true) same (ground arith)
add_jobs-attains a b (j ∷ js) h =
    add_job-attains a b j (attains b js) (add_jobs-attains (add_job (some a) j) b js h)

covered :
    (a : ComponentTaskStatus) (rows : List JobInfo)
    → add_jobs none rows ≡ some a
    → All (λ j. AtMost (first_status j) a) rows × (attains a rows ≡ true)
unfolding add_job
covered a [] e = absurd (ground arith)
covered a (j ∷ rows) e =
    let (up, rest) = add_jobs-AtMost (add_job none j) a rows e in
    let reached = add_jobs-attains (add_job none j) a rows e in
    ((AtMost-trans (first_status j) (add_job none j) a (row-AtMost none j) up, rest), ground arith)

module _ (u : Unicode) where
  -- The status that is shown for a component is at least as severe as the status of each of its rows,
  -- its end is no earlier than theirs, and it has an error if one of them has; and one of the rows has a
  -- status of the same severity.
  pub aggregate-AtMost :
      (k : Text) (js : List JobInfo) (a : ComponentTaskStatus)
      → lookup k (aggregate u js []) ≡ some a
      → All (λ j. AtMost (first_status j) a) (rows_of u k js) × (attains a (rows_of u k js) ≡ true)
  aggregate-AtMost k js a h = covered a (rows_of u k js) (sym (aggregate-rows_of u k js) ∙ h)
