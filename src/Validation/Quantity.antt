-- ===== src/Validation/Quantity.antt =====
-- The pattern for the size of a volume and that of `isValidQuantity`.
use kube_min_cli.Base.{◌≡◌, ◌∙◌, true, Text, text, arith}
use kube_min_cli.Regexp.{alt, literal, opt, matches}
use kube_min_cli.Regexp.Laws.{matches-alt, matches-opt, seq-Within}
use kube_min_cli.Validation.Names.{
  decimal_regexp, unit_regexp, storage_quantity_regexp, is_valid_quantity,
}

-- Each size that the rule for storage lets through is a quantity for the rule for resources.
pub storage_quantity-valid :
    (size : Text) → matches storage_quantity_regexp size ≡ true → is_valid_quantity size ≡ true
unfolding is_valid_quantity
storage_quantity-valid size h =
    let milli = literal (text "m") in
    seq-Within decimal_regexp (opt unit_regexp) (opt (alt milli unit_regexp)) size
      (λ v m.
        matches-opt (alt milli unit_regexp) v
        ∙ ground (arith, matches-opt unit_regexp v, matches-alt milli unit_regexp v))
      h
