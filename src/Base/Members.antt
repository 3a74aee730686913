-- ===== src/Base/Members.antt =====
-- Membership of texts, and lists of distinct texts.
use mathlib.Core.Path.{◌≡◌, refl}
use mathlib.Core.Bool.{Bool, true, not, ◌&&◌, ◌||◌}
use mathlib.Core.List.{List, [], ◌∷◌}
use native.Mathlib.Omega.{arith}
use kube_min_cli.Base.Lists.{all}
use kube_min_cli.Base.Tests.{if◌then◌else◌}
use kube_min_cli.Base.Strings.{Text, text_eq, text_eq_iff, member}

-- No text stands twice in the list.
abbrev pub distinct : List Text → Bool
distinct [] = true
distinct (x ∷ xs) = not (member x xs) && distinct xs

-- None of the texts is in the other list.
abbrev pub avoids : List Text → List Text → Bool
avoids seen xs = all (λ x. not (member x seen)) xs

-- What a loop over texts that remembers those it has seen tests.
abbrev pub distinct_from : List Text → List Text → Bool
distinct_from seen [] = true
distinct_from seen (x ∷ xs) =
    not (member x seen) && distinct_from (if member x seen then seen else x ∷ seen) xs

pub text_eq_sym : (s t : Text) → text_eq s t ≡ text_eq t s
text_eq_sym s t = ground (arith, text_eq_iff s t, text_eq_iff t s)

pub member_same : (s t : Text) (xs : List Text) → text_eq s t ≡ true → member s xs ≡ member t xs
member_same s t [] h = refl
member_same s t (x ∷ xs) h =
    ground (arith, member_same s t xs, text_eq_iff s t, text_eq_iff x s, text_eq_iff x t)

pub member_remember :
    (k x : Text) (seen : List Text)
    → member k (if member x seen then seen else x ∷ seen) ≡ (text_eq x k || member k seen)
member_remember k x seen = ground (arith, member_same x k seen)

avoids_cons :
    (x : Text) (seen xs : List Text) → avoids (x ∷ seen) xs ≡ (avoids seen xs && not (member x xs))
avoids_cons x seen [] = ground arith
avoids_cons x seen (y ∷ ys) = ground (arith, avoids_cons x seen ys, text_eq_sym x y)

pub distinct_from_lem :
    (seen xs : List Text) → distinct_from seen xs ≡ (avoids seen xs && distinct xs)
distinct_from_lem seen [] = refl
distinct_from_lem seen (x ∷ xs) =
    ground (arith, distinct_from_lem (x ∷ seen) xs, avoids_cons x seen xs)

pub avoids_nothing : (xs : List Text) → avoids [] xs ≡ true
avoids_nothing [] = refl
avoids_nothing (x ∷ xs) = avoids_nothing xs
