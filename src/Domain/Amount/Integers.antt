-- ===== src/Domain/Amount/Integers.antt =====
-- Amounts that are written as integers.
use nda_takehome.Base.{
  ℕ, ◌*◌, ◌%◌, ◌^◌, ◌<◌, true, false, some, [], ◌∷◌, ◌≡◌, refl, sym, ap, ◌∙◌, arith, All,
  if◌then◌else◌, ltb, Bool-cases, inl, inr, subst,
}
use nda_takehome.Base.Int.{pos}
use nda_takehome.Base.Outcome.{ok, panicked, Build, debug, release, ◌>>=◌}
use nda_takehome.Text.{Text, find, is_whitespace}
use nda_takehome.Text.Numbers.{digits, digits_from, parse_i64, print, i64_limit}
use nda_takehome.Text.Digits.{IsDigit, digits_from-print, print-IsDigit, print-Starts}
use nda_takehome.Text.Affix.{trim_visible, find_absent}
use nda_takehome.Domain.Amount.{or_invalid, parse_at, parse, scale, scale_i64, wrap_i64}
use nda_takehome.Domain.Amount.RoundTrip.{digit_visible, no_dots, parse_i64_digit}

visible : (s : Text) → All IsDigit s → All (λ c. is_whitespace c ≡ false) s
visible [] h = tt
visible (c ∷ s) (hc, h) = (digit_visible c hc, visible s h)

parse_i64-print : (n : ℕ) → n < i64_limit → parse_i64 (print n) ≡ some (pos n)
unfolding digits
parse_i64-print n h =
    let (first, rest, e) = print-Starts n in
    let all_digits = subst (All IsDigit) e (print-IsDigit n) in
    let value : digits_from 0 (first ∷ rest) ≡ some n =
      sym (ap (digits_from 0) e) ∙ digits_from-print n in
    ap parse_i64 e ∙ parse_i64_digit first rest all_digits.0 ∙ rw value (ground (arith, h))

parse-print :
    (build : Build) (n : ℕ) → n < i64_limit → parse build (print n) ≡ scale_i64 build (pos n)
unfolding parse
parse-print build n h =
    ap (λ t. parse_at build t (find b'.' t))
      (trim_visible (print n) (visible (print n) (print-IsDigit n)))
    ∙ ap (parse_at build (print n))
        (find_absent b'.' (print n) (no_dots (print n) (print-IsDigit n)))
    ∙ ap (λ v. or_invalid v >>= λ val. scale_i64 build val) (parse_i64-print n h)

wrap_i64_small : (m : ℕ) → ltb m i64_limit ≡ true → wrap_i64 (pos m) ≡ pos m
unfolding wrap_i64
wrap_i64_small m h = let same : m % 2 ^ 64 ≡ m = ground arith in rw (same, h) refl

-- A text that is the print of an integer below 2^63, with no point, is multiplied by 10^4 in `i64`.
-- Where the product fits, both builds return it. Where it does not, a debug build panics, and a
-- release build reports success with the product wrapped around to 64 bits.
pub parse_integer :
    (n : ℕ)
    → n < i64_limit
    → (parse debug (print n)
        ≡ (if ltb (n * scale) i64_limit then ok (pos (n * scale)) else panicked))
      × (parse release (print n)
          ≡ ok (if ltb (n * scale) i64_limit then pos (n * scale) else wrap_i64 (pos (n * scale))))
unfolding scale_i64
parse_integer n h = (
  parse-print debug n h,
  parse-print release n h
      ∙ ap ok (elim (Bool-cases (ltb (n * scale) i64_limit)) [
        | inl small ↦ rw small (wrap_i64_small (n * scale) small)
        | inr large ↦ rw large refl
      ]),
)
