-- ===== src/Regexp/Laws.antt =====
-- How matches compose.
use kube_min_cli.Base.{
  ℕ, ◌≡◌, refl, sym, ◌∙◌, ap, Bool, true, false, ◌&&◌, ◌||◌, is_nil, [], ◌∷◌, Text, arith,
  Bool-cases, inl, inr,
}
use kube_min_cli.Regexp.{
  Regexp, nothing, empty, opt, class, seq, alt, star, nullable, derivative, matches,
}

pub matches-nothing : (w : Text) → matches nothing w ≡ false
unfolding matches derivative
matches-nothing [] = refl
matches-nothing (c ∷ w) = matches-nothing w

pub matches-alt : (r s : Regexp) (w : Text) → matches (alt r s) w ≡ (matches r w || matches s w)
unfolding matches derivative
matches-alt r s [] = refl
matches-alt r s (c ∷ w) = matches-alt (derivative c r) (derivative c s) w

-- A sequence behind its first code point.
pub matches-seq_step :
    (r s : Regexp) (c : ℕ) (w : Text)
    → matches (seq r s) (c ∷ w)
      ≡ (matches (seq (derivative c r) s) w || (nullable r && matches s (c ∷ w)))
unfolding matches derivative
matches-seq_step r s c w = elim (Bool-cases (nullable r)) [
  | inl n ↦ rw n (matches-alt (seq (derivative c r) s) (derivative c s) w)
  | inr n ↦ rw n (
      matches-alt (seq (derivative c r) s) nothing w
      ∙ ap (λ b. matches (seq (derivative c r) s) w || b) (matches-nothing w))
]

-- Two expressions that match the same texts.
abbrev pub Same : Regexp → Regexp → Type 0
Same r s = (w : Text) → matches r w ≡ matches s w

-- One expression matches whatever the other one does.
abbrev pub Within : Regexp → Regexp → Type 0
Within r s = (w : Text) → matches r w ≡ true → matches s w ≡ true

pub seq-Same : (r r' s : Regexp) (w : Text) → Same r r' → matches (seq r s) w ≡ matches (seq r' s) w
unfolding matches
seq-Same r r' s [] h = ground (arith, h [])
seq-Same r r' s (c ∷ w) h =
    let rest = seq-Same (derivative c r) (derivative c r') s w (λ v. h (c ∷ v)) in
    matches-seq_step r s c w ∙ ground (arith, rest, h [], matches-seq_step r' s c w)

pub seq-Within :
    (r s s' : Regexp) (w : Text)
    → Within s s'
    → matches (seq r s) w ≡ true
    → matches (seq r s') w ≡ true
unfolding matches nullable
seq-Within r s s' [] h m = ground (arith, h [])
seq-Within r s s' (c ∷ w) h m = ground (
  arith,
  seq-Within (derivative c r) s s' w h,
  h (c ∷ w),
  matches-seq_step r s c w,
  matches-seq_step r s' c w,
)

pub seq-nothing : (s : Regexp) (w : Text) → matches (seq nothing s) w ≡ false
unfolding matches nullable
seq-nothing s [] = refl
seq-nothing s (c ∷ w) = matches-seq_step nothing s c w ∙ ground (arith, seq-nothing s w)

pub seq-empty : (s : Regexp) (w : Text) → matches (seq empty s) w ≡ matches s w
unfolding matches nullable
seq-empty s [] = refl
seq-empty s (c ∷ w) = matches-seq_step empty s c w ∙ ground (arith, seq-nothing s w)

pub matches-class :
    (p : ℕ → Bool) (c : ℕ) (w : Text) → matches (class p) (c ∷ w) ≡ (p c && is_nil w)
unfolding matches derivative nullable
matches-class p c [] = ground arith
matches-class p c (d ∷ w) = elim (Bool-cases (p c)) [
  | inl y ↦ rw y (matches-nothing w)
  | inr n ↦ rw n (matches-nothing w)
]

pub matches-class_seq :
    (p : ℕ → Bool) (r : Regexp) (c : ℕ) (w : Text)
    → matches (seq (class p) r) (c ∷ w) ≡ (p c && matches r w)
unfolding matches derivative nullable
matches-class_seq p r c w = elim (Bool-cases (p c)) [
  | inl y ↦
      rw y (matches-alt (seq empty r) nothing w ∙ ground (arith, seq-empty r w, matches-nothing w))
  | inr n ↦
      rw n
        (matches-alt (seq nothing r) nothing w ∙ ground (arith, seq-nothing r w, matches-nothing w))
]

pub matches-opt : (r : Regexp) (w : Text) → matches (opt r) w ≡ (is_nil w || matches r w)
unfolding matches derivative nullable
matches-opt r [] = refl
matches-opt r (c ∷ w) = matches-alt nothing (derivative c r) w ∙ ground (arith, matches-nothing w)

pub matches-star_step :
    (p : ℕ → Bool) (r : Regexp) (c : ℕ) (w : Text)
    → matches (seq (star (class p)) r) (c ∷ w)
      ≡ ((p c && matches (seq (star (class p)) r) w) || matches r (c ∷ w))
unfolding derivative nullable
matches-star_step p r c w =
    let s = star (class p) in
    let step = matches-seq_step s r c w in
    elim (Bool-cases (p c)) [
      | inl y ↦
          step
          ∙ rw y (ap (λ b. b || matches r (c ∷ w)) (seq-Same (seq empty s) s r w (seq-empty s)))
      | inr n ↦
          step
          ∙ rw n (
              ap (λ b. b || matches r (c ∷ w))
                (seq-Same (seq nothing s) nothing r w
                    (λ v. seq-nothing s v ∙ sym (matches-nothing v))
                  ∙ seq-nothing r w))
    ]
