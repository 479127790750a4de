-- ===== src/Text/Affix.antt =====
-- Texts without white space at their ends, and the place of a character.
use nda_takehome.Base.{
  ℕ, suc, ◌+◌, false, none, some, [], ◌∷◌, ◌++◌, ◌==◌, ◌≡◌, refl, sym, ap, ◌∙◌, arith, All,
  All-append, subst, length, take, drop, if◌then◌else◌,
}
use mathlib.Core.List.{reverse, reverse-append, reverse-cons, reverse-reverse}
use nda_takehome.Text.{Text, trim, trim_start, find, is_whitespace}

trim_start_kept : (c : ℕ) (s : Text) → is_whitespace c ≡ false → trim_start (c ∷ s) ≡ c ∷ s
unfolding trim_start
trim_start_kept c s h = ap (λ b. if b then trim_start s else c ∷ s) h

-- A text whose first and last characters are no white space is not trimmed.
pub trim_kept :
    (c d : ℕ) (s : Text)
    → is_whitespace c ≡ false
    → is_whitespace d ≡ false
    → trim (c ∷ s ++ d ∷ []) ≡ c ∷ s ++ d ∷ []
unfolding trim
trim_kept c d s hc hd =
    ap (λ t. reverse (trim_start (reverse t))) (trim_start_kept c (s ++ d ∷ []) hc)
    ∙ ap (λ t. reverse (trim_start t)) (reverse-append (c ∷ s) (d ∷ []))
    ∙ ap reverse (trim_start_kept d (reverse (c ∷ s)) hd)
    ∙ ap reverse (sym (reverse-append (c ∷ s) (d ∷ [])))
    ∙ reverse-reverse (c ∷ s ++ d ∷ [])

-- The first place of a character behind a part that does not have it.
pub find-append :
    (d : ℕ) (s t : Text) → All (λ c. (c == d) ≡ false) s → find d (s ++ d ∷ t) ≡ some (length s)
unfolding find
find-append d [] t h = ground arith
find-append d (c ∷ s) t (hc, h) = rw (hc, find-append d s t h) refl

pub take-length : (s t : Text) → take (length s) (s ++ t) ≡ s
take-length [] t = refl
take-length (c ∷ s) t = ap (λ r. c ∷ r) (take-length s t)

drop-suc : (d : ℕ) (s t : Text) → drop (suc (length s)) (s ++ d ∷ t) ≡ t
drop-suc d [] t = refl
drop-suc d (c ∷ s) t = drop-suc d s t

pub drop-length : (d : ℕ) (s t : Text) → drop (length s + 1) (s ++ d ∷ t) ≡ t
drop-length d s t =
    let next : length s + 1 ≡ suc (length s) = omega arith in
    ap (λ n. drop n (s ++ d ∷ t)) next ∙ drop-suc d s t

All-reverse : (P : ℕ → Type 0) (s : Text) → All P s → All P (reverse s)
All-reverse P [] h = tt
All-reverse P (c ∷ s) (hc, h) =
    subst (All P) (sym (reverse-cons c s))
      (All-append P (reverse s) (c ∷ []) (All-reverse P s h) (hc, tt))

trim_start_visible : (s : Text) → All (λ c. is_whitespace c ≡ false) s → trim_start s ≡ s
unfolding trim_start
trim_start_visible [] h = refl
trim_start_visible (c ∷ s) h = trim_start_kept c s h.0

-- A text without white space is not trimmed.
pub trim_visible : (s : Text) → All (λ c. is_whitespace c ≡ false) s → trim s ≡ s
unfolding trim
trim_visible s h =
    ap (λ t. reverse (trim_start (reverse t))) (trim_start_visible s h)
    ∙ ap reverse (trim_start_visible (reverse s) (All-reverse (λ c. is_whitespace c ≡ false) s h))
    ∙ reverse-reverse s

-- A character that is not there is not found.
pub find_absent : (d : ℕ) (s : Text) → All (λ c. (c == d) ≡ false) s → find d s ≡ none
unfolding find
find_absent d [] h = refl
find_absent d (c ∷ s) (hc, h) = rw (hc, find_absent d s h) refl
