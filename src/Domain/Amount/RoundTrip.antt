-- ===== src/Domain/Amount/RoundTrip.antt =====
-- Printing and parsing an amount (src/domain/amount.rs).
use mathlib.Core.Path.{ap₂}
use nda_takehome.Base.{
  ℕ, suc, ◌+◌, ◌-◌, ◌*◌, ◌/◌, ◌%◌, ◌<◌, true, false, some, [], ◌∷◌, ◌++◌, ◌==◌, ◌≡◌, refl, sym, ap,
  ◌∙◌, arith, All, length, append_assoc, subst,
}
use nda_takehome.Base.Int.{ltb_ℤ, pos, negsuc}
use nda_takehome.Base.Outcome.{ok, Build}
use nda_takehome.Text.{Text, trim, find, is_whitespace, pad_left}
use nda_takehome.Text.Numbers.{
  digits_from, digits, parse_i64, print, positive_i64, negative_i64, ◌>>=◌,
}
use nda_takehome.Text.Digits.{
  IsDigit, digits_from-print, print-IsDigit, print-Starts, digits_from-append, length-pad_left,
  pad_left-IsDigit, digits_from-pad_left,
}
use nda_takehome.Text.Affix.{trim_kept, find-append, take-length, drop-length}
use nda_takehome.Domain.Amount.{
  Amount, or_invalid, parse_at, frac_4, parse, to_string, fits_i64, scale,
}

pub digit_visible : (c : ℕ) → IsDigit c → is_whitespace c ≡ false
unfolding is_whitespace
digit_visible c h = ground arith

pub no_dots : (s : Text) → All IsDigit s → All (λ c. (c == b'.') ≡ false) s
no_dots [] h = tt
no_dots (c ∷ s) (hc, h) = (ground arith, no_dots s h)

-- Four characters.
four : (s : Text) → length s ≡ 4 → (a : ℕ) × (b : ℕ) × (c : ℕ) × (d : ℕ) × (s ≡ a ∷ b ∷ c ∷ d ∷ [])
four [] h = let no : ⊥ = omega arith in elim no [ ]
four (a ∷ []) h = let no : ⊥ = omega arith in elim no [ ]
four (a ∷ b ∷ []) h = let no : ⊥ = omega arith in elim no [ ]
four (a ∷ b ∷ c ∷ []) h = let no : ⊥ = omega arith in elim no [ ]
four (a ∷ b ∷ c ∷ d ∷ []) h = (a, b, c, d, refl)
four (a ∷ b ∷ c ∷ d ∷ e ∷ s) h = let no : ⊥ = omega arith in elim no [ ]

digits_from-four :
    (k a b c d : ℕ)
    → All IsDigit (a ∷ b ∷ c ∷ d ∷ [])
    → digits_from k (a ∷ b ∷ c ∷ d ∷ [])
      ≡ some ((((k * 10 + (a - b'0')) * 10 + (b - b'0')) * 10 + (c - b'0')) * 10 + (d - b'0'))
unfolding digits_from
digits_from-four k a b c d (ha, (hb, (hc, (hd, _)))) = rw (ha, hb, hc, hd) refl

-- The digits before the point and the four behind it are read as one number.
parse_point :
    (build : Build) (first : ℕ) (rest front : Text) (d : ℕ)
    → is_whitespace first ≡ false
    → is_whitespace d ≡ false
    → All (λ c. (c == b'.') ≡ false) (first ∷ rest)
    → parse build (first ∷ rest ++ (b'.' ∷ front ++ d ∷ []))
      ≡ or_invalid (parse_i64 (first ∷ rest ++ frac_4 (front ++ d ∷ [])))
unfolding parse
parse_point build first rest front d hf hd plain =
    let s = first ∷ rest ++ (b'.' ∷ front ++ d ∷ []) in
    let joined : first ∷ (rest ++ b'.' ∷ front) ++ d ∷ [] ≡ s =
      ap (λ t. first ∷ t) (append_assoc rest (b'.' ∷ front) (d ∷ [])) in
    let trimmed : trim s ≡ s =
      subst (λ t. trim t ≡ t) joined (trim_kept first d (rest ++ b'.' ∷ front) hf hd) in
    ap (λ t. parse_at build t (find b'.' t)) trimmed
    ∙ ap (parse_at build s) (find-append b'.' (first ∷ rest) (front ++ d ∷ []) plain)
    ∙ ap₂ (λ int_part frac_part. or_invalid (parse_i64 (int_part ++ frac_4 frac_part)))
        (take-length (first ∷ rest) (b'.' ∷ front ++ d ∷ []))
        (drop-length b'.' (first ∷ rest) (front ++ d ∷ []))

parse_dotted :
    (build : Build) (first : ℕ) (rest : Text) (a b c d : ℕ)
    → is_whitespace first ≡ false
    → is_whitespace d ≡ false
    → All (λ c. (c == b'.') ≡ false) (first ∷ rest)
    → parse build (first ∷ rest ++ b'.' ∷ a ∷ b ∷ c ∷ d ∷ [])
      ≡ or_invalid (parse_i64 (first ∷ rest ++ a ∷ b ∷ c ∷ d ∷ []))
parse_dotted build first rest a b c d = parse_point build first rest (a ∷ b ∷ c ∷ []) d

-- Truncation: what stands behind the fourth character after the point makes no difference, be it
-- digits or anything else. The text neither starts nor ends with white space, nor does the part
-- that is kept, and its first point is the one meant.
pub parse_truncates :
    (build : Build) (first : ℕ) (rest : Text) (a b c d : ℕ) (more : Text) (last : ℕ)
    → is_whitespace first ≡ false
    → is_whitespace d ≡ false
    → is_whitespace last ≡ false
    → All (λ c. (c == b'.') ≡ false) (first ∷ rest)
    → parse build (first ∷ rest ++ (b'.' ∷ a ∷ b ∷ c ∷ d ∷ more ++ last ∷ []))
      ≡ parse build (first ∷ rest ++ b'.' ∷ a ∷ b ∷ c ∷ d ∷ [])
parse_truncates build first rest a b c d more last hf hd hl plain =
    parse_point build first rest (a ∷ b ∷ c ∷ d ∷ more) last hf hl plain
    ∙ sym (parse_dotted build first rest a b c d hf hd plain)

-- The print of a number of ten-thousandths.
abbrev unsigned : ℕ → Text
unsigned n = print (n / scale) ++ b'.' ∷ pad_left 4 (print (n % scale))

-- Its characters, and what they are worth.
record Shape (n : ℕ) : Type 0 where
  pub first : ℕ
  pub rest : Text
  pub a : ℕ
  pub b : ℕ
  pub c : ℕ
  pub d : ℕ
  pub text : unsigned n ≡ first ∷ rest ++ b'.' ∷ a ∷ b ∷ c ∷ d ∷ []
  pub whole_digits : All IsDigit (first ∷ rest)
  pub last_digit : IsDigit d
  pub value : digits_from 0 (first ∷ rest ++ a ∷ b ∷ c ∷ d ∷ []) ≡ some n

shape : (n : ℕ) → Shape n
shape n =
    let q = n / scale in
    let r = n % scale in
    let small : r < 10000 = omega arith in
    let (first, rest, e) = print-Starts q in
    let (a, b, c, d, f) = four (pad_left 4 (print r)) (length-pad_left r small) in
    let fraction : All IsDigit (a ∷ b ∷ c ∷ d ∷ []) = subst (All IsDigit) f (pad_left-IsDigit r) in
    let read_r =
      sym (digits_from-four 0 a b c d fraction)
      ∙ sym (ap (digits_from 0) f)
      ∙ digits_from-pad_left r in
    let read_q : digits_from 0 (first ∷ rest) ≡ some q =
      sym (ap (digits_from 0) e) ∙ digits_from-print q in
    record {
      first = first;
      rest = rest;
      a = a;
      b = b;
      c = c;
      d = d;
      text = ap₂ (λ s t. s ++ b'.' ∷ t) e f;
      whole_digits = subst (All IsDigit) e (print-IsDigit q);
      last_digit = fraction.1.1.1.0;
      value =
          digits_from-append 0 q (first ∷ rest) (a ∷ b ∷ c ∷ d ∷ []) read_q
          ∙ digits_from-four q a b c d fraction
          ∙ ap some (ground (arith, read_r));
    }

pub parse_i64_digit :
    (first : ℕ) (rest : Text)
    → IsDigit first
    → parse_i64 (first ∷ rest) ≡ (digits (first ∷ rest) >>= positive_i64)
unfolding parse_i64
parse_i64_digit first rest h =
    let no_minus : (first == b'-') ≡ false = ground arith in
    let no_plus : (first == b'+') ≡ false = ground arith in rw (no_minus, no_plus) refl

parse-unsigned : (build : Build) (n : ℕ) → parse build (unsigned n) ≡ or_invalid (positive_i64 n)
unfolding digits
parse-unsigned build n =
    let s = shape n in
    ap (parse build) s.text
    ∙ parse_dotted build s.first s.rest s.a s.b s.c s.d (digit_visible s.first s.whole_digits.0)
        (digit_visible s.d s.last_digit) (no_dots (s.first ∷ s.rest) s.whole_digits)
    ∙ ap or_invalid
        (parse_i64_digit s.first (s.rest ++ s.a ∷ s.b ∷ s.c ∷ s.d ∷ []) s.whole_digits.0)
    ∙ ap (λ o. or_invalid (o >>= positive_i64)) s.value

parse-negated :
    (build : Build) (n : ℕ) → parse build (b'-' ∷ unsigned n) ≡ or_invalid (negative_i64 n)
unfolding parse_i64 digits
parse-negated build n =
    let s = shape n in
    ap (λ t. parse build (b'-' ∷ t)) s.text
    ∙ parse_dotted build b'-' (s.first ∷ s.rest) s.a s.b s.c s.d (unfold is_whitespace in refl)
        (digit_visible s.d s.last_digit) (refl, no_dots (s.first ∷ s.rest) s.whole_digits)
    ∙ ap (λ o. or_invalid (o >>= negative_i64)) s.value

to_string-pos : (n : ℕ) → to_string (pos n) ≡ unsigned n
unfolding to_string
to_string-pos n =
    let plain : n + 0 ≡ n = omega arith in
    let positive : ltb_ℤ (pos n) (pos 0) ≡ false = ground arith in rw positive (ap unsigned plain)

to_string-negsuc : (n : ℕ) → to_string (negsuc n) ≡ b'-' ∷ unsigned (suc n)
unfolding to_string
to_string-negsuc n =
    let plain : 0 + suc n ≡ suc n = omega arith in
    let negative : ltb_ℤ (negsuc n) (pos 0) ≡ true = ground arith in
    rw negative (ap (λ m. b'-' ∷ unsigned m) plain)

-- In either build, an amount whose ten-thousandths fit an `i64` is printed as a text that is parsed
-- as that amount.
pub parse-to_string :
    (build : Build) (a : Amount) → fits_i64 a ≡ true → parse build (to_string a) ≡ ok a
parse-to_string build (pos n) h =
    ap (parse build) (to_string-pos n) ∙ parse-unsigned build n ∙ rw h refl
parse-to_string build (negsuc n) h =
    ap (parse build) (to_string-negsuc n) ∙ parse-negated build (suc n) ∙ ground (arith, h)
