-- ===== src/Examples/AmountExamples.antt =====
-- The theorems on amounts, at concrete texts.
use nda_takehome.Base.{arith, ◌≡◌, refl, [], ◌*◌, if◌then◌else◌, ltb}
use nda_takehome.Base.Int.{pos, negsuc}
use nda_takehome.Base.Outcome.{debug, release, ok, panicked}
use nda_takehome.Text.{codes, is_whitespace}
use nda_takehome.Text.Numbers.{print, i64_limit}
use nda_takehome.Domain.Amount.{parse, to_string, scale, wrap_i64}
use nda_takehome.Domain.Amount.RoundTrip.{parse-to_string, parse_truncates}
use nda_takehome.Domain.Amount.Integers.{parse_integer}

parse-to_string_example : parse debug (to_string (negsuc 51233)) ≡ ok (negsuc 51233)
parse-to_string_example = parse-to_string debug (negsuc 51233) refl

parse_truncates_example : parse release (codes "1.2345garbage") ≡ parse release (codes "1.2345")
unfolding is_whitespace
parse_truncates_example =
    parse_truncates release b'1' [] b'2' b'3' b'4' b'5' (codes "garbag") b'e' refl refl refl
      (refl, tt)

parse_integer_example :
    (parse debug (print 1000000000000000) ≡ (
      if ltb (1000000000000000 * scale) i64_limit
      then ok (pos (1000000000000000 * scale))
      else panicked))
    × (parse release (print 1000000000000000)
        ≡ ok (
            if ltb (1000000000000000 * scale) i64_limit
            then pos (1000000000000000 * scale)
            else wrap_i64 (pos (1000000000000000 * scale))))
parse_integer_example = parse_integer 1000000000000000 (omega arith)
