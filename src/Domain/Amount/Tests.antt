-- ===== src/Domain/Amount/Tests.antt =====
-- The unit tests of src/domain/amount.rs.
use nda_takehome.Base.{◌≡◌, refl}
use nda_takehome.Base.Int.{pos, negsuc}
use nda_takehome.Base.Outcome.{ok, err, debug, release}
use nda_takehome.Text.{codes}
use nda_takehome.Domain.Amount.{parse, to_string, invalid_amount}

parse_truncates : parse debug (codes "5.12341") ≡ ok (pos 51234)
unfolding parse
parse_truncates = refl

parse_negative : parse debug (codes "-5.1234") ≡ ok (negsuc 51233)
unfolding parse
parse_negative = refl

parse_whitespace : parse debug (codes "  5  ") ≡ ok (pos 50000)
unfolding parse
parse_whitespace = refl

parse_two_dots : parse debug (codes "1.2.3") ≡ err invalid_amount
unfolding parse
parse_two_dots = refl

parse_tiny : parse debug (codes "-0.00001") ≡ ok (pos 0)
unfolding parse
parse_tiny = refl

parse_overflow : parse release (codes "1000000000000000") ≡ ok (negsuc 8446744073709551615)
unfolding parse
parse_overflow = refl

to_string-negative : to_string (negsuc 51233) ≡ codes "-5.1234"
unfolding to_string
to_string-negative = refl

to_string-small : to_string (pos 12) ≡ codes "0.0012"
unfolding to_string
to_string-small = refl
