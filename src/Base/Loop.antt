-- ===== src/Base/Loop.antt =====
-- A `while` loop without fuel: its rounds, and the runs that come to an end.
use nda_takehome.Base.{◌≡◌, sym, subst, ◌⊎◌, inl, inr, arith}

-- From the state `s` the rounds lead, one after the other, to the end `r`.
pub data Runs {ℓ κ} {S : Type ℓ} {R : Type κ} (round : S → S ⊎ R) : S → R → Type (ℓ ⊔ κ) where
  stops : {s : S} {r : R} → round s ≡ inr r → Runs round s r
  goes_on : {s s' : S} {r : R} → round s ≡ inl s' → Runs round s' r → Runs round s r

module _ {ℓ κ} {S : Type ℓ} {R : Type κ} (round : S → S ⊎ R) where
  pub Runs-unique : {s : S} {r r' : R} → Runs round s r → Runs round s r' → r ≡ r'
  Runs-unique (stops e) (stops e') = ground arith
  Runs-unique (stops e) (goes_on e' run') = ground arith
  Runs-unique (goes_on e run) (stops e') = ground arith
  Runs-unique (goes_on {s' = s1} e run) (goes_on {s' = s2} {r = r'} e' run') =
      let same : s1 ≡ s2 = ground arith in
      Runs-unique run (subst (λ s. Runs round s r') (sym same) run')
