-- ===== src/Base/Decimal.antt =====
-- `%d` of a number that is not negative, and what a decimal reads as.
use Prim.Native.Nat.{ℕ, zero, suc, ◌+◌, ◌-◌, ◌*◌, ◌/◌, ◌%◌, ◌<◌}
use mathlib.Core.Path.{◌≡◌, refl, sym, ap, ◌∙◌}
use mathlib.Core.Bool.{Bool, true, ◌&&◌}
use mathlib.Core.Logic.{inl, inr}
use mathlib.Core.List.{[], ◌∷◌, ◌++◌}
use native.Mathlib.Omega.{arith}
use kube_min_cli.Base.Lists.{all}
use kube_min_cli.Base.Strings.{Text}
use kube_min_cli.Base.Tests.{ltb, leb, if◌then◌else◌, Bool-cases}

unfoldable digits : ℕ → ℕ → Text
digits zero n = []
digits (suc fuel) n =
    let rest = digits fuel (n / 10) in
    if ltb n 10 then (48 + n) ∷ [] else rest ++ ((48 + n % 10) ∷ [])

-- The number itself is fuel enough: `value-decimal`.
unfoldable pub decimal : ℕ → Text
unfolding digits
decimal n = digits (suc n) n

abbrev value_from : ℕ → Text → ℕ
value_from acc [] = acc
value_from acc (c ∷ cs) = value_from (acc * 10 + (c - 48)) cs

value_from-append :
    (acc c : ℕ) (cs : Text) → value_from acc (cs ++ (c ∷ [])) ≡ value_from acc cs * 10 + (c - 48)
value_from-append acc c [] = refl
value_from-append acc c (d ∷ ds) = value_from-append (acc * 10 + (d - 48)) c ds

value-digits : (fuel n : ℕ) → n < fuel → value_from 0 (digits fuel n) ≡ n
unfolding digits
value-digits zero n h = absurd (omega arith)
value-digits (suc fuel) n h = elim (Bool-cases (ltb n 10)) [
  | inl small ↦ rw small (omega arith)
  | inr big ↦
      let tenth : n / 10 < fuel = ground arith in
      rw big (
        value_from-append 0 (48 + n % 10) (digits fuel (n / 10))
        ∙ ap (λ m. m * 10 + (48 + n % 10 - 48)) (value-digits fuel (n / 10) tenth)
        ∙ omega arith)
]

-- A decimal reads as its number.
pub value-decimal : (n : ℕ) → value_from 0 (decimal n) ≡ n
unfolding decimal
value-decimal n = value-digits (suc n) n (omega arith)

pub decimal_injective : (m n : ℕ) → decimal m ≡ decimal n → m ≡ n
decimal_injective m n e = sym (value-decimal m) ∙ ap (value_from 0) e ∙ value-decimal n

-- `0` to `9`
abbrev pub is_decimal : ℕ → Bool
is_decimal c = leb 48 c && leb c 57

all_append : (p : ℕ → Bool) (cs ds : Text) → all p (cs ++ ds) ≡ (all p cs && all p ds)
all_append p [] ds = refl
all_append p (c ∷ cs) ds = ground (arith, all_append p cs ds)

all-digits : (fuel n : ℕ) → all is_decimal (digits fuel n) ≡ true
unfolding digits
all-digits zero n = refl
all-digits (suc fuel) n = elim (Bool-cases (ltb n 10)) [
  | inl small ↦ rw small (ground arith)
  | inr big ↦ rw big (
      all_append is_decimal (digits fuel (n / 10)) ((48 + n % 10) ∷ [])
      ∙ ground (arith, all-digits fuel (n / 10)))
]

pub all-decimal : (n : ℕ) → all is_decimal (decimal n) ≡ true
unfolding decimal
all-decimal n = all-digits (suc n) n
