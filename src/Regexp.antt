-- ===== src/Regexp.antt =====
-- Regular expressions of Go's regexp package over code points, as far as the patterns of
-- pkg/apiserver use them, each pattern anchored at both ends. A match is decided by derivatives.
pub mod Laws
use kube_min_cli.Base.{ℕ, Bool, true, false, ◌&&◌, ◌||◌, [], ◌∷◌, Text, leb, ◌==◌, if◌then◌else◌}

pub data Regexp : Type 0 where
  nothing : Regexp
  empty : Regexp
  class : (ℕ → Bool) → Regexp
  seq : Regexp → Regexp → Regexp
  alt : Regexp → Regexp → Regexp
  star : Regexp → Regexp

-- `r?` and `r+`
abbrev pub opt : Regexp → Regexp
opt r = alt empty r

abbrev pub plus : Regexp → Regexp
plus r = seq r (star r)

abbrev pub literal : Text → Regexp
literal [] = empty
literal (c ∷ cs) = seq (class (λ d. d == c)) (literal cs)

-- `[0-9]`
abbrev pub is_digit : ℕ → Bool
is_digit c = leb 48 c && leb c 57

unfoldable pub nullable : Regexp → Bool
nullable nothing = false
nullable empty = true
nullable (class p) = false
nullable (seq r s) = nullable r && nullable s
nullable (alt r s) = nullable r || nullable s
nullable (star r) = true

-- What is left to match behind a code point.
unfoldable pub derivative : ℕ → Regexp → Regexp
unfolding nullable
derivative c nothing = nothing
derivative c empty = nothing
derivative c (class p) = if p c then empty else nothing
derivative c (seq r s) =
    let later = derivative c s in
    alt (seq (derivative c r) s) (if nullable r then later else nothing)
derivative c (alt r s) = alt (derivative c r) (derivative c s)
derivative c (star r) = seq (derivative c r) (star r)

-- `MatchString`
unfoldable pub matches : Regexp → Text → Bool
unfolding derivative nullable
matches r [] = nullable r
matches r (c ∷ cs) = matches (derivative c r) cs
