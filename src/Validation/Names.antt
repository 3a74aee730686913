-- ===== src/Validation/Names.antt =====
-- pkg/apiserver/domain/service/validation.go: names, and the patterns.
use kube_min_cli.Base.{
  ℕ, Bool, true, not, ◌&&◌, ◌||◌, ◌++◌, Text, text, is_nil, byte_length, ltb, leb, if◌then◌else◌,
}
use kube_min_cli.Regexp.{Regexp, class, seq, alt, star, opt, plus, literal, is_digit, matches}
use kube_min_cli.Naming.{Unicode, is_name_char, to_lower}
use kube_min_cli.Validation.Errors.{
  Field, ErrorList, report, missing_required_field, name_too_short, name_too_long,
  invalid_name_format,
}

-- `[a-z0-9]`
abbrev pub is_alphanumeric : ℕ → Bool
is_alphanumeric c = (leb 97 c && leb c 122) || (leb 48 c && leb c 57)

-- `[a-z0-9]([-a-z0-9]*[a-z0-9])?`
abbrev pub name_regexp : Regexp
name_regexp =
    seq (class is_alphanumeric) (opt (seq (star (class is_name_char)) (class is_alphanumeric)))

-- `[0-9]+(\.[0-9]+)?`
abbrev pub decimal_regexp : Regexp
decimal_regexp =
    seq (plus (class is_digit)) (opt (seq (literal (text ".")) (plus (class is_digit))))

-- `Ki|Mi|Gi|Ti|Pi|Ei|K|M|G|T|P|E`
abbrev pub unit_regexp : Regexp
unit_regexp = alt (literal (text "Ki")) (
    alt (literal (text "Mi")) (
      alt (literal (text "Gi")) (
        alt (literal (text "Ti")) (
          alt (literal (text "Pi")) (
            alt (literal (text "Ei")) (
              alt (literal (text "K")) (
                alt (literal (text "M")) (
                  alt (literal (text "G")) (
                    alt (literal (text "T"))
                      (alt (literal (text "P")) (literal (text "E"))))))))))))

abbrev pub storage_quantity_regexp : Regexp
storage_quantity_regexp = seq decimal_regexp (opt unit_regexp)

-- The pattern of `isValidQuantity`.
abbrev pub quantity_regexp : Regexp
quantity_regexp = seq decimal_regexp (opt (alt (literal (text "m")) unit_regexp))

unfoldable pub is_valid_quantity : Text → Bool
is_valid_quantity = matches quantity_regexp

module _ (u : Unicode) where
  -- The bounds are minNameLength and maxNameLength.
  unfoldable pub validate_name : Text → Field → ErrorList
  validate_name name field =
      if is_nil name
      then report true field missing_required_field
      else report (ltb (byte_length name) 2) field name_too_short
        ++ report (ltb 63 (byte_length name)) field name_too_long
        ++ report (not (matches name_regexp (to_lower u name))) field invalid_name_format
