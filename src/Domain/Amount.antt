-- ===== src/Domain/Amount.antt =====
-- src/domain/amount.rs: a fixed-point amount, the value times 10^4 as a `BigInt`.
pub mod Tests
pub mod RoundTrip
pub mod Integers
use nda_takehome.Base.{
  ℕ, ⊤, suc, ◌+◌, ◌-◌, ◌*◌, ◌/◌, ◌%◌, ◌^◌, Bool, true, false, Option, none, some, [], ◌∷◌, ◌++◌,
  ltb, if◌then◌else◌, take, drop, replicate,
}
use nda_takehome.Base.Int.{ℤ, pos, negsuc, sub_ℕ, pos_part, neg_part, neg_ℤ, ◌+ℤ◌, ◌-ℤ◌, ltb_ℤ}
use nda_takehome.Base.Outcome.{Outcome, ok, err, panicked, ◌>>=◌, Build, debug, release}
use nda_takehome.Text.{Text, trim, find, pad_left}
use nda_takehome.Text.Numbers.{i64_limit, parse_i64, print}

abbrev pub scale : ℕ
scale = 10000

abbrev pub Amount : Type 0
Amount = ℤ

-- `Amount::zero`
abbrev pub zero : Amount
zero = pos 0

abbrev pub fits_i64 : ℤ → Bool
fits_i64 (pos n) = ltb n i64_limit
fits_i64 (negsuc n) = ltb n i64_limit

-- The low 64 bits, read as an `i64`.
abbrev signed_i64 : ℕ → ℤ
signed_i64 n = if ltb n i64_limit then pos n else negsuc (2 ^ 64 - 1 - n)

unfoldable pub wrap_i64 : ℤ → ℤ
wrap_i64 (pos n) = signed_i64 (n % 2 ^ 64)
wrap_i64 (negsuc n) = signed_i64 (2 ^ 64 - 1 - n % 2 ^ 64)

abbrev pub times_scale : ℤ → ℤ
times_scale (pos n) = pos (n * scale)
times_scale (negsuc n) = sub_ℕ 0 (suc n * scale)

-- `units * SCALE` in `i64`: a debug build panics where a release build wraps around.
unfoldable pub scale_i64 {ℓ} : {E : Type ℓ} → Build → ℤ → Outcome E ℤ
unfolding wrap_i64
scale_i64 debug units = if fits_i64 (times_scale units) then ok (times_scale units) else panicked
scale_i64 release units = ok (wrap_i64 (times_scale units))

-- `Amount::from_major`
unfoldable pub from_major : Build → ℤ → Outcome ⊥ Amount
unfolding scale_i64
from_major build units = scale_i64 build units

-- `Amount::from_scaled`
abbrev pub from_scaled : ℤ → Amount
from_scaled raw = raw

-- `anyhow` errors of this file carry one context.
pub data ParseError : Type 0 where
  invalid_amount : ParseError

abbrev pub or_invalid : Option ℤ → Outcome ParseError ℤ
or_invalid none = err invalid_amount
or_invalid (some v) = ok v

-- Four digits of the fraction: what is missing is `0`, what is more is cut off.
abbrev pub frac_4 : Text → Text
frac_4 frac_part = take 4 (take 4 frac_part ++ replicate 4 b'0')

abbrev pub parse_at : Build → Text → Option ℕ → Outcome ParseError Amount
parse_at build trimmed (some dot_pos) =
    let int_part = take dot_pos trimmed in
    let frac_part = drop (dot_pos + 1) trimmed in
    or_invalid (parse_i64 (int_part ++ frac_4 frac_part))
parse_at build trimmed none = or_invalid (parse_i64 trimmed) >>= λ val. scale_i64 build val

-- `Amount::parse`
unfoldable pub parse : Build → Text → Outcome ParseError Amount
unfolding parse_i64 scale_i64 trim find
parse build s = let trimmed = trim s in parse_at build trimmed (find b'.' trimmed)

-- `Amount::is_positive`
abbrev pub is_positive : Amount → Bool
is_positive a = ltb_ℤ (pos 0) a

-- `Display for Amount`
unfoldable pub to_string : Amount → Text
unfolding print pad_left
to_string a =
    let abs = pos_part a + neg_part a in
    let frac = pad_left 4 (print (abs % scale)) in
    let text = print (abs / scale) ++ b'.' ∷ frac in if ltb_ℤ a (pos 0) then b'-' ∷ text else text

-- `Add`, `AddAssign`, `Sub`, `SubAssign`, `Neg`
abbrev pub add : Amount → Amount → Amount
add a b = a +ℤ b

abbrev pub add_assign : Amount → Amount → Amount
add_assign a b = a +ℤ b

abbrev pub sub : Amount → Amount → Amount
sub a b = a -ℤ b

abbrev pub sub_assign : Amount → Amount → Amount
sub_assign a b = a -ℤ b

abbrev pub neg : Amount → Amount
neg a = neg_ℤ a
