-- ===== src/Application/FreshName.antt =====
-- The name that is made unique: one more round than there are workflows is enough.
use kube_min_cli.Base.{
  ℕ, zero, suc, ◌≤◌, ◌<◌, ◌≡◌, refl, sym, ap, ◌∙◌, subst, true, false, ◌||◌, List, [], ◌∷◌, ◌++◌,
  map, Option, some, Text, text, is_nil, text_eq, text_eq_iff, length, length-append, ◌==◌, ==_iff,
  if◌then◌else◌, decimal, decimal_injective, all-decimal, is_decimal, all, member, arith,
  Bool-cases, inl, inr,
}
use kube_min_cli.Application.WorkflowName.{
  Workflow, equal_fold, in_use, search_name, ensure_unique_workflow_name,
}

-- The names that are tried: the base, then the base with the numbers from 1.
abbrev pub candidate : Text → ℕ → Text
candidate base zero = base
candidate base (suc n) = base ++ text "-" ++ decimal (suc n)

abbrev remove : Text → List Text → List Text
remove k [] = []
remove k (x ∷ xs) = let rest = remove k xs in if text_eq x k then rest else x ∷ rest

remove_shorter : (k : Text) (xs : List Text) → length (remove k xs) ≤ length xs
remove_shorter k [] = omega arith
remove_shorter k (x ∷ xs) = ground (arith, remove_shorter k xs)

length-remove : (k : Text) (xs : List Text) → member k xs ≡ true → length (remove k xs) < length xs
length-remove k [] h = cc
length-remove k (x ∷ xs) h = ground (arith, length-remove k xs, remove_shorter k xs)

member-remove :
    (j k : Text) (xs : List Text) → text_eq k j ≡ false → member j (remove k xs) ≡ member j xs
member-remove j k [] h = refl
member-remove j k (x ∷ xs) h =
    ground (arith, member-remove j k xs, text_eq_iff x k, text_eq_iff x j, text_eq_iff k j)

append_cancel : (p s t : Text) → p ++ s ≡ p ++ t → s ≡ t
append_cancel [] s t e = e
append_cancel (c ∷ p) s t e = append_cancel p s t cc

module _ (fold : ℕ → ℕ) (fold_digit : (c : ℕ) → is_decimal c ≡ true → fold c ≡ c) where
  length-fold : (s : Text) → length (map fold s) ≡ length s
  length-fold [] = refl
  length-fold (c ∷ cs) = ap suc (length-fold cs)

  fold-append : (s t : Text) → map fold (s ++ t) ≡ map fold s ++ map fold t
  fold-append [] t = refl
  fold-append (c ∷ cs) t = ap (λ r. fold c ∷ r) (fold-append cs t)

  fold_digits : (s : Text) → all is_decimal s ≡ true → map fold s ≡ s
  fold_digits [] h = refl
  fold_digits (c ∷ cs) h =
      let here : is_decimal c ≡ true = ground arith in
      let rest : all is_decimal cs ≡ true = ground arith in
      ap (λ d. d ∷ map fold cs) (fold_digit c here) ∙ ap (λ ds. c ∷ ds) (fold_digits cs rest)

  abbrev key : Text → ℕ → Text
  key base n = map fold (candidate base n)

  key-suc :
      (base : Text) (n : ℕ) → key base (suc n) ≡ map fold (base ++ text "-") ++ decimal (suc n)
  key-suc base n =
      fold-append (base ++ text "-") (decimal (suc n))
      ∙ ap (λ d. map fold (base ++ text "-") ++ d)
          (fold_digits (decimal (suc n)) (all-decimal (suc n)))

  key_injective : (base : Text) (m n : ℕ) → m < n → text_eq (key base m) (key base n) ≡ false
  key_injective base m n h = elim (Bool-cases (text_eq (key base m) (key base n))) [
    | inl e ↦ absurd (clash m n h (((text_eq_iff (key base m) (key base n)).0) e))
    | inr d ↦ d
  ]
    where
      clash : (m n : ℕ) → m < n → key base m ≡ key base n → ⊥
      clash zero zero h e = omega arith
      clash (suc m) zero h e = omega arith
      clash zero (suc n) h e =
          let l = ap length e in
          omega (
            arith,
            l,
            length-fold base,
            length-fold (candidate base (suc n)),
            length-append (base ++ text "-") (decimal (suc n)),
            length-append base (text "-"),
          )
      clash (suc m) (suc n) h e =
          let d =
            append_cancel (map fold (base ++ text "-")) (decimal (suc m)) (decimal (suc n))
              (sym (key-suc base m) ∙ e ∙ key-suc base n) in
          omega (arith, decimal_injective (suc m) (suc n) d)

  in_use-member :
      (c : Text) (ws : List Workflow)
      → in_use fold c ws ≡ member (map fold c) (map (λ (w : Workflow). map fold w.name) ws)
  unfolding equal_fold
  in_use-member c [] = refl
  in_use-member c (w ∷ ws) =
      ap (λ b. text_eq (map fold w.name) (map fold c) || b) (in_use-member c ws)

  length-names :
      (ws : List Workflow) → length (map (λ (w : Workflow). map fold w.name) ws) ≡ length ws
  length-names [] = refl
  length-names (w ∷ ws) = ap suc (length-names ws)

  -- The search from a candidate ends at the first one that is free.
  record Found (base : Text) (ws : List Workflow) (i : ℕ) (result : Option Text) : Type 0 where
    number : ℕ
    from : i ≤ number
    result_eq : result ≡ some (candidate base number)
    free : in_use fold (candidate base number) ws ≡ false
    earlier : (m : ℕ) → i ≤ m → m < number → in_use fold (candidate base m) ws ≡ true

  -- `left` are the names in use that a candidate may still meet.
  search_name-Found :
      (fuel i : ℕ) (base : Text) (ws : List Workflow) (left : List Text)
      → length left < fuel
      → ((j : ℕ) → i ≤ j → in_use fold (candidate base j) ws ≡ member (key base j) left)
      → Found base ws i (search_name fold fuel base (candidate base i) (suc i) ws)
  unfolding search_name
  search_name-Found zero i base ws left h met = absurd (omega arith)
  search_name-Found (suc fuel) i base ws left h met =
      elim (Bool-cases (in_use fold (candidate base i) ws)) [
        | inr unused ↦ record {
          number = i;
          from = omega arith;
          result_eq = rw unused refl;
          free = unused;
          earlier = λ m a b. absurd (omega arith);
        }
        | inl used ↦
            let k = key base i in
            let known = sym (met i (omega arith)) ∙ used in
            let rest =
              search_name-Found fuel (suc i) base ws (remove k left)
                (omega (arith, length-remove k left known))
                (λ j le.
                  met j (omega arith)
                  ∙ sym
                      (member-remove (key base j) k left (key_injective base i j (omega arith)))) in
            record {
              number = rest.number;
              from = omega (arith, rest.from);
              result_eq = rw used rest.result_eq;
              free = rest.free;
              earlier = λ m a b. elim (Bool-cases (m == i)) [
                | inl e ↦
                    subst (λ x. in_use fold (candidate base x) ws ≡ true) (sym (((==_iff m i).0) e))
                      used
                | inr d ↦ rest.earlier m (ground arith) b
              ];
            }
      ]

  -- The name that is made unique is the first of the base, the base with 1, and so on that no
  -- workflow has up to case, and the search finds it.
  pub ensure_unique_workflow_name-fresh :
      (base : Text) (ws : List Workflow)
      → is_nil base ≡ false
      → (n : ℕ) × (ensure_unique_workflow_name fold base ws ≡ some (candidate base n))
        × (in_use fold (candidate base n) ws ≡ false)
        × ((m : ℕ) → m < n → in_use fold (candidate base m) ws ≡ true)
  unfolding ensure_unique_workflow_name
  ensure_unique_workflow_name-fresh base ws h =
      let names = map (λ (w : Workflow). map fold w.name) ws in
      let f =
        search_name-Found (suc (length ws)) 0 base ws names (omega (arith, length-names ws))
          (λ j le. in_use-member (candidate base j) ws) in
      (f.number, rw h f.result_eq, f.free, λ m lt. f.earlier m (omega arith) lt)
