-- ===== src/Text/Digits.antt =====
-- The digits of a printed number (Text/Numbers.antt).
use nda_takehome.Base.{
  ℕ, zero, suc, ◌+◌, ◌-◌, ◌*◌, ◌/◌, ◌%◌, ◌≤◌, ◌<◌, true, none, some, [], ◌∷◌, ◌++◌, ◌≡◌, refl, sym,
  ap, ◌∙◌, arith, All, length, replicate, length-append, length-replicate, All-append,
  All-replicate, Bool-cases, inl, inr, ltb, if◌then◌else◌,
}
use nda_takehome.Text.{Text, pad_left}
use nda_takehome.Text.Numbers.{is_digit, digits_from, print_from, print}

abbrev pub IsDigit : ℕ → Type 0
IsDigit c = is_digit c ≡ true

digits_from_digit :
    (n d : ℕ) (s : Text) → d < 10 → digits_from n ((b'0' + d) ∷ s) ≡ digits_from (n * 10 + d) s
unfolding digits_from
digits_from_digit n d s h =
    let digit : is_digit (b'0' + d) ≡ true = ground arith in
    rw digit (ap (λ m. digits_from m s) (omega arith))

-- Reading on after a printed number.
digits_from-print_from :
    (fuel n : ℕ) (out : Text) → n < fuel → digits_from 0 (print_from fuel n out) ≡ digits_from n out
unfolding print_from
digits_from-print_from zero n out h = let no : ⊥ = omega arith in elim no [ ]
digits_from-print_from (suc fuel) n out h = elim (Bool-cases (ltb n 10)) [
  | inl small ↦
      rw small
        (digits_from_digit 0 n out (ground arith) ∙ ap (λ m. digits_from m out) (omega arith))
  | inr large ↦ rw large (
      digits_from-print_from fuel (n / 10) ((b'0' + n % 10) ∷ out) (ground arith)
      ∙ digits_from_digit (n / 10) (n % 10) out (omega arith)
      ∙ ap (λ m. digits_from m out) (omega arith))
]

print_from-IsDigit :
    (fuel n : ℕ) (out : Text) → All IsDigit out → All IsDigit (print_from fuel n out)
unfolding print_from
print_from-IsDigit zero n out h = h
print_from-IsDigit (suc fuel) n out h = elim (Bool-cases (ltb n 10)) [
  | inl small ↦ rw small (ground arith, h)
  | inr large ↦
      rw large (print_from-IsDigit fuel (n / 10) ((b'0' + n % 10) ∷ out) (ground arith, h))
]

abbrev pub Starts : Text → Type 0
Starts s = (c : ℕ) × (t : Text) × (s ≡ c ∷ t)

print_from-Starts : (fuel n : ℕ) (c : ℕ) (out : Text) → Starts (print_from fuel n (c ∷ out))
unfolding print_from
print_from-Starts zero n c out = (c, out, refl)
print_from-Starts (suc fuel) n c out = elim (Bool-cases (ltb n 10)) [
  | inl small ↦ rw small (b'0' + n, c ∷ out, refl)
  | inr large ↦ rw large (print_from-Starts fuel (n / 10) (b'0' + n % 10) (c ∷ out))
]

abbrev pub limit : ℕ → ℕ
limit zero = 1
limit (suc k) = limit k * 10

length-print_from :
    (k fuel n : ℕ) (out : Text)
    → n < fuel
    → n < limit (suc k)
    → length (print_from fuel n out) ≤ suc k + length out
unfolding print_from
length-print_from k zero n out h l = let no : ⊥ = omega arith in elim no [ ]
length-print_from zero (suc fuel) n out h l =
    let small : ltb n 10 ≡ true = ground arith in rw small (omega arith)
length-print_from (suc k) (suc fuel) n out h l = elim (Bool-cases (ltb n 10)) [
  | inl small ↦ rw small (omega arith)
  | inr large ↦ rw large (
      let rest =
        length-print_from k fuel (n / 10) ((b'0' + n % 10) ∷ out) (ground arith) (omega arith) in
      omega (arith, rest))
]

-- What is known of a printed number.
pub digits_from-print : (n : ℕ) → digits_from 0 (print n) ≡ some n
unfolding print digits_from
digits_from-print n = digits_from-print_from (suc n) n [] (omega arith)

pub print-IsDigit : (n : ℕ) → All IsDigit (print n)
unfolding print
print-IsDigit n = print_from-IsDigit (suc n) n [] tt

pub print-Starts : (n : ℕ) → Starts (print n)
unfolding print print_from
print-Starts n = elim (Bool-cases (ltb n 10)) [
  | inl small ↦ rw small (b'0' + n, [], refl)
  | inr large ↦ rw large (print_from-Starts n (n / 10) (b'0' + n % 10) [])
]

pub digits_from-append :
    (n v : ℕ) (s t : Text) → digits_from n s ≡ some v → digits_from n (s ++ t) ≡ digits_from v t
unfolding digits_from
digits_from-append n v [] t h = ground (arith, h)
digits_from-append n v (c ∷ s) t h = elim (Bool-cases (is_digit c)) [
  | inl digit ↦
      let next = n * 10 + (c - b'0') in
      rw digit (
        digits_from-append next v s t
          (sym (ap (λ b. if b then digits_from next s else none) digit) ∙ h))
  | inr other ↦ ground (arith, h)
]

length-print : (n : ℕ) → n < 10000 → length (print n) ≤ 4
unfolding print
length-print n h = length-print_from 3 (suc n) n [] (omega arith) (omega arith)

digits_from-replicate : (z : ℕ) (s : Text) → digits_from 0 (replicate z b'0' ++ s) ≡ digits_from 0 s
unfolding digits_from
digits_from-replicate zero s = refl
digits_from-replicate (suc z) s = digits_from-replicate z s

-- Four digits of a number below 10^4.
pub length-pad_left : (n : ℕ) → n < 10000 → length (pad_left 4 (print n)) ≡ 4
unfolding pad_left
length-pad_left n h =
    let zeros = 4 - length (print n) in
    omega (
      arith,
      length-print n h,
      length-append (replicate zeros b'0') (print n),
      length-replicate {A = ℕ} zeros b'0',
    )

pub pad_left-IsDigit : (n : ℕ) → All IsDigit (pad_left 4 (print n))
unfolding pad_left
pad_left-IsDigit n =
    let zeros = 4 - length (print n) in
    All-append IsDigit (replicate zeros b'0') (print n) (All-replicate IsDigit zeros b'0' refl)
      (print-IsDigit n)

pub digits_from-pad_left : (n : ℕ) → digits_from 0 (pad_left 4 (print n)) ≡ some n
unfolding pad_left
digits_from-pad_left n =
    digits_from-replicate (4 - length (print n)) (print n) ∙ digits_from-print n
