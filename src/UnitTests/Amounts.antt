-- ===== src/UnitTests/Amounts.antt =====
-- The tests of src/domain/amount.rs.
use nda_takehome.Base.{Bool, true, false, not, ◌&&◌}
use nda_takehome.Base.Int.{ℤ, pos, neg_ℤ, eq_ℤ, ltb_ℤ, leb_ℤ, ◌+ℤ◌, ◌-ℤ◌}
use nda_takehome.Base.Outcome.{ok, err, panicked, debug}
use nda_takehome.Text.{Text, codes, text_eq}
use nda_takehome.Domain.Amount.{
  Amount, ParseError, parse, to_string, from_major, from_scaled, is_positive, add, add_assign, sub,
  sub_assign,
}
use nda_takehome.Domain.Amount
use nda_takehome.UnitTests.{is_major}

-- A test of an amount that `from_major` gives; it panics when the call does.
abbrev with_major : ℤ → (Amount → Bool) → Bool
with_major units test = elim (from_major debug units) [
  | ok a ↦ test a
  | err e ↦ false
  | panicked ↦ false
]

-- `assert_eq!(Amount::parse(…).unwrap(), …)`
abbrev pub parses : Text → (Amount → Bool) → Bool
parses s test = elim (parse debug s) [ ok a ↦ test a | err e ↦ false | panicked ↦ false ]

-- `assert!(Amount::parse(…).is_err())`
abbrev pub fails : Text → Bool
fails s = elim (parse debug s) [ ok a ↦ false | err e ↦ true | panicked ↦ false ]

abbrev prints : Amount → Text → Bool
prints a s = text_eq (to_string a) s

unfoldable pub test_parse : Bool
unfolding parse from_major
test_parse =
    parses (codes "5") (λ a. is_major a (pos 5))
    && parses (codes "5.1") (eq_ℤ (from_scaled (pos 51000)))
    && parses (codes "5.1234") (eq_ℤ (from_scaled (pos 51234)))
    && parses (codes "5.12341") (eq_ℤ (from_scaled (pos 51234)))
    && parses (codes "0.00001") (eq_ℤ Amount.zero)

unfoldable pub test_parse_negative : Bool
unfolding parse from_major
test_parse_negative =
    parses (codes "-5") (λ a. is_major a (neg_ℤ (pos 5)))
    && parses (codes "-5.1234") (eq_ℤ (from_scaled (neg_ℤ (pos 51234))))
    && parses (codes "-0.00001") (eq_ℤ Amount.zero)

unfoldable pub test_parse_whitespace : Bool
unfolding parse from_major
test_parse_whitespace =
    parses (codes "  5  ") (λ a. is_major a (pos 5))
    && parses (codes " 5.1234 ") (eq_ℤ (from_scaled (pos 51234)))

unfoldable pub test_parse_invalid : Bool
unfolding parse
test_parse_invalid = fails (codes "") && fails (codes "abc") && fails (codes "1.2.3")

unfoldable pub test_display : Bool
unfolding to_string from_major text_eq
test_display =
    with_major (pos 5) (λ a. prints a (codes "5.0000"))
    && prints (from_scaled (pos 51234)) (codes "5.1234")
    && prints (from_scaled (pos 51000)) (codes "5.1000")
    && prints Amount.zero (codes "0.0000")
    && with_major (neg_ℤ (pos 5)) (λ a. prints a (codes "-5.0000"))
    && prints (from_scaled (neg_ℤ (pos 51234))) (codes "-5.1234")

unfoldable pub test_is_positive : Bool
unfolding from_major
test_is_positive =
    with_major (pos 1) is_positive
    && not (is_positive Amount.zero)
    && with_major (neg_ℤ (pos 1)) (λ a. not (is_positive a))

unfoldable pub test_arithmetic : Bool
unfolding from_major ◌+ℤ◌ ◌-ℤ◌
test_arithmetic = with_major (pos 10) λ a. with_major (pos 3) λ b. with_major (pos 5) λ c.
    is_major (add a b) (pos 13)
    && is_major (sub a b) (pos 7)
    && is_major (add_assign c b) (pos 8)
    && is_major (sub_assign (add_assign c b) b) (pos 5)

unfoldable pub test_ordering : Bool
unfolding from_major
test_ordering =
    with_major (pos 10)
      λ a. with_major (pos 5) λ b. with_major (pos 0) λ c. ltb_ℤ b a && leb_ℤ Amount.zero c
