-- ===== src/Naming/Label.antt =====
-- Resource names are valid DNS labels.
use kube_min_cli.Base.{
  ℕ, zero, suc, ◌≤◌, ◌≡◌, refl, Bool, true, false, [], ◌∷◌, Text, text, length, take, is_nil, ◌==◌,
  ltb, if◌then◌else◌, Bool-cases, inl, inr, arith, all, length-take, ltb_false→le,
}
use kube_min_cli.Naming.{
  Unicode, dash, is_name_char, replace_runs, replace_pairs, collapse, trim_left, trim_right,
  truncate, to_lower, to_rfc1123_name, build_resource_name, has_pair, join, normalize_segment,
}

abbrev pub starts_with_dash : Text → Bool
starts_with_dash [] = false
starts_with_dash (c ∷ cs) = c == dash

abbrev pub ends_with_dash : Text → Bool
ends_with_dash [] = false
ends_with_dash (c ∷ cs) = let rest = ends_with_dash cs in if is_nil cs then c == dash else rest

-- RFC 1123: one to 63 of the characters, the first and the last no dash.
pub record IsDnsLabel (s : Text) : Type 0 where
  pub chars : all is_name_char s ≡ true
  pub short : length s ≤ 63
  pub not_empty : is_nil s ≡ false
  pub first_char : starts_with_dash s ≡ false
  pub last_char : ends_with_dash s ≡ false

all-replace_runs : (inside : Bool) (s : Text) → all is_name_char (replace_runs inside s) ≡ true
unfolding replace_runs
all-replace_runs inside [] = refl
all-replace_runs inside (c ∷ cs) =
    ground (arith, all-replace_runs true cs, all-replace_runs false cs)

all-replace_pairs :
    (held : Bool) (s : Text)
    → all is_name_char s ≡ true
    → all is_name_char (replace_pairs held s) ≡ true
unfolding replace_pairs
all-replace_pairs true [] h = refl
all-replace_pairs false [] h = refl
all-replace_pairs held (c ∷ cs) h =
    ground (arith, all-replace_pairs true cs, all-replace_pairs false cs)

all-collapse :
    (fuel : ℕ) (s : Text) → all is_name_char s ≡ true → all is_name_char (collapse fuel s) ≡ true
unfolding collapse
all-collapse zero s h = h
all-collapse (suc fuel) s h = elim (Bool-cases (has_pair false s)) [
  | inl more ↦
      rw (more, collapse) (all-collapse fuel (replace_pairs false s) (all-replace_pairs false s h))
  | inr flat ↦ rw (flat, collapse) h
]

all-trim_left : (s : Text) → all is_name_char s ≡ true → all is_name_char (trim_left s) ≡ true
unfolding trim_left
all-trim_left [] h = refl
all-trim_left (c ∷ cs) h = ground (arith, all-trim_left cs)

all-trim_right : (s : Text) → all is_name_char s ≡ true → all is_name_char (trim_right s) ≡ true
unfolding trim_right
all-trim_right [] h = refl
all-trim_right (c ∷ cs) h = ground (arith, all-trim_right cs)

all-take : (n : ℕ) (s : Text) → all is_name_char s ≡ true → all is_name_char (take n s) ≡ true
all-take zero s h = refl
all-take (suc n) [] h = refl
all-take (suc n) (c ∷ cs) h = ground (arith, all-take n cs)

start-trim_left : (s : Text) → starts_with_dash (trim_left s) ≡ false
unfolding trim_left
start-trim_left [] = refl
start-trim_left (c ∷ cs) = ground (arith, start-trim_left cs)

start-trim_right : (s : Text) → starts_with_dash s ≡ false → starts_with_dash (trim_right s) ≡ false
unfolding trim_right
start-trim_right [] h = refl
start-trim_right (c ∷ cs) h = ground arith

end-trim_right : (s : Text) → ends_with_dash (trim_right s) ≡ false
unfolding trim_right
end-trim_right [] = refl
end-trim_right (c ∷ cs) = ground (arith, end-trim_right cs)

-- A text that starts with another character than a dash stays non-empty when it is trimmed.
nonempty-trim_right :
    (c : ℕ) (cs : Text) → (c == dash) ≡ false → is_nil (trim_right (c ∷ cs)) ≡ false
unfolding trim_right
nonempty-trim_right c cs h = ground arith

length-trim_left : (s : Text) → length (trim_left s) ≤ length s
unfolding trim_left
length-trim_left [] = omega arith
length-trim_left (c ∷ cs) = ground (arith, length-trim_left cs)

length-trim_right : (s : Text) → length (trim_right s) ≤ length s
unfolding trim_right
length-trim_right [] = omega arith
length-trim_right (c ∷ cs) = ground (arith, length-trim_right cs)

-- A label but for its length.
record IsLabel (s : Text) : Type 0 where
  chars : all is_name_char s ≡ true
  not_empty : is_nil s ≡ false
  first_char : starts_with_dash s ≡ false
  last_char : ends_with_dash s ≡ false

to_rfc1123_name-IsLabel : (u : Unicode) (s : Text) → IsLabel (to_rfc1123_name u s)
unfolding to_rfc1123_name
to_rfc1123_name-IsLabel u s =
    let r = replace_runs false (to_lower u s) in
    let p = collapse (length r) r in
    let c = all-collapse (length r) r (all-replace_runs false (to_lower u s)) in
    ground (
      arith,
      all-trim_right (trim_left p) (all-trim_left p c),
      start-trim_right (trim_left p) (start-trim_left p),
      end-trim_right (trim_left p),
    )

-- Cutting a label to 63 characters and trimming it leaves a label.
cut-IsDnsLabel : (c : ℕ) (cs : Text) → IsLabel (c ∷ cs) → IsDnsLabel (trim_right (c ∷ take 62 cs))
cut-IsDnsLabel c cs h = record {
  chars = all-trim_right (c ∷ take 62 cs) (all-take 63 (c ∷ cs) h.chars);
  short = omega (arith, length-trim_right (c ∷ take 62 cs), length-take 62 cs);
  not_empty = nonempty-trim_right c (take 62 cs) h.first_char;
  first_char = start-trim_right (c ∷ take 62 cs) h.first_char;
  last_char = end-trim_right (c ∷ take 62 cs);
}

truncate-IsDnsLabel : (s : Text) → IsLabel s → IsDnsLabel (truncate s)
unfolding truncate trim_left
truncate-IsDnsLabel [] h = cc
truncate-IsDnsLabel (c ∷ cs) h = elim (Bool-cases (ltb 63 (length (c ∷ cs)))) [
  | inl long ↦ rw (long, truncate) (rw h.first_char (cut-IsDnsLabel c cs h))
  | inr short ↦
      rw (short, truncate)
        (record {
          chars = h.chars;
          short = ltb_false→le 63 (length (c ∷ cs)) short;
          not_empty = refl;
          first_char = h.first_char;
          last_char = h.last_char;
        })
]

-- Every name that the builders make of a prefix, a component and an application is a DNS label,
-- whatever the three texts are.
pub build_resource_name-IsDnsLabel :
    (u : Unicode) (prefix component app_id : Text)
    → IsDnsLabel (build_resource_name u prefix component app_id)
unfolding build_resource_name
build_resource_name-IsDnsLabel u prefix component app_id =
    let joined = join prefix (
      join (normalize_segment u component (text "component"))
        (normalize_segment u app_id (text "app"))) in
    let label = truncate-IsDnsLabel _ (to_rfc1123_name-IsLabel u joined) in rw label.not_empty label
