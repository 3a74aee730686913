-- ===== src/Validation/Label.antt =====
-- The pattern of names is the DNS label.
use kube_min_cli.Base.{
  suc, ◌≡◌, refl, sym, ap, ◌∙◌, Bool, true, not, ◌&&◌, [], ◌∷◌, Text, is_nil, all, length,
  byte_length, length-byte_length, leb, arith,
}
use kube_min_cli.Regexp.{Regexp, class, seq, star, opt, nullable, matches}
use kube_min_cli.Regexp.Laws.{matches-class, matches-class_seq, matches-opt, matches-star_step}
use kube_min_cli.Naming.{Unicode, is_name_char, to_lower}
use kube_min_cli.Naming.Label.{starts_with_dash, ends_with_dash, IsDnsLabel}
use kube_min_cli.Validation.Accept.{IsTest}
use kube_min_cli.Validation.Errors.{Field, report}
use kube_min_cli.Validation.Names.{is_alphanumeric, name_regexp, validate_name}

-- `[-a-z0-9]*[a-z0-9]`
abbrev tail_regexp : Regexp
tail_regexp = seq (star (class is_name_char)) (class is_alphanumeric)

matches-tail :
    (w : Text)
    → matches tail_regexp w ≡ (all is_name_char w && not (is_nil w) && not (ends_with_dash w))
matches-tail [] = unfold matches nullable in refl
matches-tail (c ∷ w) =
    matches-star_step is_name_char (class is_alphanumeric) c w
    ∙ ground (arith, matches-tail w, matches-class is_alphanumeric c w)

-- A lower-case name without its length.
abbrev pub is_label : Text → Bool
is_label s =
    all is_name_char s && not (is_nil s) && not (starts_with_dash s) && not (ends_with_dash s)

pub matches-name_regexp : (w : Text) → matches name_regexp w ≡ is_label w
matches-name_regexp [] = unfold matches nullable in refl
matches-name_regexp (c ∷ w) =
    matches-class_seq is_alphanumeric (opt tail_regexp) c w
    ∙ ground (arith, matches-opt tail_regexp w, matches-tail w)

module _ (u : Unicode) where
  length-to_lower : (s : Text) → length (to_lower u s) ≡ length s
  unfolding to_lower
  length-to_lower [] = refl
  length-to_lower (c ∷ cs) = ap suc (length-to_lower cs)

  abbrev pub name_ok : Text → Bool
  name_ok name = leb 2 (byte_length name) && leb (byte_length name) 63 && is_label (to_lower u name)

  -- No error is reported for a name just when it has 2 to 63 bytes and its lower case is a label:
  -- characters of a name, neither the first nor the last of them a dash.
  pub validate_name-IsTest : IsTest (validate_name u) name_ok
  unfolding validate_name byte_length to_lower report
  validate_name-IsTest [] field = refl
  validate_name-IsTest (c ∷ cs) field = ground (arith, matches-name_regexp (to_lower u (c ∷ cs)))

  -- A name that is accepted is a DNS label in lower case.
  pub validate_name-IsDnsLabel :
      (name : Text) (field : Field)
      → is_nil (validate_name u name field) ≡ true
      → IsDnsLabel (to_lower u name)
  validate_name-IsDnsLabel name field h =
      let ok = sym (validate_name-IsTest name field) ∙ h in
      record {
        chars = ground arith;
        short = ground (arith, length-to_lower name, length-byte_length name);
        not_empty = ground arith;
        first_char = ground arith;
        last_char = ground arith;
      }
