-- ===== src/Naming/Collapse.antt =====
-- The loop that collapses dashes: it ends with no two dashes in a row.
use kube_min_cli.Base.{
  ℕ, zero, suc, ◌+◌, ◌≤◌, ◌<◌, ◌≡◌, refl, Bool, true, false, [], ◌∷◌, Text, length, Bool-cases, inl,
  inr, arith,
}
use kube_min_cli.Naming.{replace_pairs, has_pair, collapse}

abbrev weight : Bool → ℕ
weight true = 1
weight false = 0

-- A pass never lengthens, and shortens a text with a pair.
replace_pairs-length :
    (held : Bool) (s : Text) → length (replace_pairs held s) ≤ weight held + length s
unfolding replace_pairs
replace_pairs-length true [] = omega arith
replace_pairs-length false [] = omega arith
replace_pairs-length true (c ∷ cs) = ground (arith, replace_pairs-length false cs)
replace_pairs-length false (c ∷ cs) =
    ground (arith, replace_pairs-length true cs, replace_pairs-length false cs)

replace_pairs-shorter :
    (held : Bool) (s : Text)
    → has_pair held s ≡ true
    → length (replace_pairs held s) < weight held + length s
unfolding replace_pairs has_pair
replace_pairs-shorter held [] h = cc
replace_pairs-shorter true (c ∷ cs) h =
    ground (arith, replace_pairs-length false cs, replace_pairs-shorter false cs)
replace_pairs-shorter false (c ∷ cs) h =
    ground (arith, replace_pairs-shorter true cs, replace_pairs-shorter false cs)

-- The loop of `ToRFC1123Name` over dashes ends with no two dashes in a row, given the length of the
-- text as fuel.
pub collapse-flat :
    (fuel : ℕ) (s : Text) → length s ≤ fuel → has_pair false (collapse fuel s) ≡ false
unfolding collapse
collapse-flat zero [] h = unfold has_pair in refl
collapse-flat zero (c ∷ cs) h = absurd (omega arith)
collapse-flat (suc fuel) s h = elim (Bool-cases (has_pair false s)) [
  | inl more ↦
      rw (more, collapse)
        (collapse-flat fuel (replace_pairs false s)
          (omega (arith, replace_pairs-shorter false s more)))
  | inr flat ↦ rw (flat, collapse) flat
]
