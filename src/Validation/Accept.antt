-- ===== src/Validation/Accept.antt =====
-- When a list of errors is empty.
use kube_min_cli.Base.{ℕ, suc, ◌≡◌, refl, Bool, ◌&&◌, List, [], ◌∷◌, ◌++◌, is_nil, all, arith}
use kube_min_cli.Validation.Errors.{at, Field, ErrorList, each}

pub is_nil-append : (xs ys : ErrorList) → is_nil (xs ++ ys) ≡ (is_nil xs && is_nil ys)
is_nil-append [] ys = refl
is_nil-append (x ∷ xs) ys = refl

pub is_nil-three : (a b c : ErrorList) → is_nil (a ++ b ++ c) ≡ (is_nil a && is_nil b && is_nil c)
is_nil-three a b c = simp is_nil-append

pub is_nil-nine :
    (a b c d e f g h i : ErrorList)
    → is_nil (a ++ b ++ c ++ d ++ e ++ f ++ g ++ h ++ i) ≡ (
        is_nil a
        && is_nil b
        && is_nil c
        && is_nil d
        && is_nil e
        && is_nil f
        && is_nil g
        && is_nil h
        && is_nil i)
is_nil-nine a b c d e f g h i = simp is_nil-append

-- A validator reports nothing just when a test holds.
abbrev pub IsTest {ℓ} : {A : Type ℓ} → (A → Field → ErrorList) → (A → Bool) → Type ℓ
IsTest {A = A} f t = (x : A) (p : Field) → is_nil (f x p) ≡ t x

pub each-IsTest {ℓ} :
    {A : Type ℓ} (f : A → Field → ErrorList) (t : A → Bool)
    → IsTest f t
    → (i : ℕ) (p : Field) (xs : List A) → is_nil (each f i p xs) ≡ all t xs
unfolding each
each-IsTest f t h i p [] = refl
each-IsTest f t h i p (x ∷ xs) =
    let here = p ++ (at i ∷ []) in
    ground (
      arith,
      h x here,
      each-IsTest f t h (suc i) p xs,
      is_nil-append (f x here) (each f (suc i) p xs),
    )
