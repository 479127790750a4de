-- ===== src/Text/Numbers.antt =====
-- Decimal numbers of the standard library: `FromStr` of the integer types, `Display` of an integer.
use nda_takehome.Base.{
  ℕ, zero, suc, ◌+◌, ◌-◌, ◌*◌, ◌/◌, ◌%◌, ◌^◌, Bool, ◌&&◌, Option, none, some, [], ◌∷◌, ◌==◌, ltb,
  leb, if◌then◌else◌,
}
use nda_takehome.Base.Int.{ℤ, pos, sub_ℕ}
use nda_takehome.Text.{Text}

abbrev pub is_digit : ℕ → Bool
is_digit c = leb b'0' c && leb c b'9'

unfoldable pub digits_from : ℕ → Text → Option ℕ
digits_from n [] = some n
digits_from n (c ∷ s) = if is_digit c then digits_from (n * 10 + (c - b'0')) s else none

-- One digit or more.
unfoldable pub digits : Text → Option ℕ
unfolding digits_from
digits [] = none
digits (c ∷ s) = digits_from 0 (c ∷ s)

infixl 5 ◌>>=◌
abbrev pub ◌>>=◌ : {A B : Type 0} → Option A → (A → Option B) → Option B
none >>= f = none
some a >>= f = f a

abbrev pub i64_limit : ℕ
i64_limit = 2 ^ 63

abbrev pub positive_i64 : ℕ → Option ℤ
positive_i64 n = if ltb n i64_limit then some (pos n) else none

abbrev pub negative_i64 : ℕ → Option ℤ
negative_i64 n = if leb n i64_limit then some (sub_ℕ 0 n) else none

-- `i64::from_str`: every cause of failure is one error to the callers.
unfoldable pub parse_i64 : Text → Option ℤ
unfolding digits
parse_i64 [] = none
parse_i64 (c ∷ s) =
    if c == b'-'
    then (digits s >>= negative_i64)
    else if c == b'+'
    then (digits s >>= positive_i64)
    else (digits (c ∷ s) >>= positive_i64)

abbrev pub below : ℕ → ℕ → Option ℕ
below limit n = if ltb n limit then some n else none

-- `u16::from_str` and `u32::from_str`, by the first number that does not fit: a `-` is no digit.
unfoldable pub parse_unsigned : ℕ → Text → Option ℕ
unfolding digits
parse_unsigned limit [] = none
parse_unsigned limit (c ∷ s) =
    if c == b'+' then (digits s >>= below limit) else (digits (c ∷ s) >>= below limit)

-- The rounds of the decimal print, the last digit first; fuel `n + 1` is enough for `n`.
unfoldable pub print_from : ℕ → ℕ → Text → Text
print_from zero n out = out
print_from (suc fuel) n out =
    let rest = print_from fuel (n / 10) ((b'0' + n % 10) ∷ out) in
    if ltb n 10 then (b'0' + n) ∷ out else rest

-- `Display` of a number that is not negative
unfoldable pub print : ℕ → Text
unfolding print_from
print n = print_from (suc n) n []
