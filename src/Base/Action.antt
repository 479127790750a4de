-- ===== src/Base/Action.antt =====
-- A `&mut self` method that returns a `Result`: a state is changed, and what has been written
-- stays written when the call fails or panics.
use nda_takehome.Base.{◌≡◌, ap, ⊤, Bool, Option, none, some, if◌then◌else◌}
use nda_takehome.Base.Outcome.{Outcome, ok, err, panicked}

abbrev pub Action {ℓ κ μ} : Type ℓ → Type κ → Type μ → Type (ℓ ⊔ κ ⊔ μ)
Action S E A = S → Outcome E A × S

module _ {ℓ κ μ} {S : Type ℓ} {E : Type κ} {A : Type μ} where
  abbrev pub pure : A → Action S E A
  pure a self = (ok a, self)

  abbrev pub gets : (S → A) → Action S E A
  gets field self = (ok (field self), self)

  -- A call that only reads.
  abbrev pub lift : Outcome E A → Action S E A
  lift result self = (result, self)

  -- `Option::ok_or` and `?`
  abbrev pub or_fail : Option A → E → Action S E A
  or_fail none e self = (err e, self)
  or_fail (some a) e self = (ok a, self)

module _ {ℓ κ} {S : Type ℓ} {E : Type κ} where
  abbrev pub modify : (S → S) → Action S E ⊤
  modify write self = (ok tt, write self)

  -- An early `return Err(…)`
  abbrev pub refuse_if : Bool → E → Action S E ⊤
  refuse_if test e self = (if test then err e else ok tt, self)

  -- `assert!`
  abbrev pub assert : (S → Bool) → Action S E ⊤
  assert test self = (if test self then ok tt else panicked, self)

infixl 5 ◌>>=◌ ◌>>◌
abbrev pub ◌>>=◌ {ℓ κ μ ν} :
    {S : Type ℓ} {E : Type κ} {A : Type μ} {B : Type ν}
    → Action S E A
    → (A → Action S E B)
    → Action S E B
◌>>=◌ m f self =
    let (result, self') = m self in
    elim result [ ok a ↦ f a self' | err e ↦ (err e, self') | panicked ↦ (panicked, self') ]

abbrev pub ◌>>◌ {ℓ κ μ ν} :
    {S : Type ℓ} {E : Type κ} {A : Type μ} {B : Type ν} → Action S E A → Action S E B → Action S E B
m >> k = m >>= λ _. k

-- After a call that has succeeded, the chain goes on.
pub bind_ok {ℓ κ μ ν} :
    {S : Type ℓ} {E : Type κ} {A : Type μ} {B : Type ν} (m : Action S E A) (f : A → Action S E B)
    (self : S) (a : A)
    → (m self).0 ≡ ok a
    → (m >>= f) self ≡ f a (m self).1
bind_ok {S = S} m f self a e = ap (λ result. ((λ (_ : S). (result, (m self).1)) >>= f) self) e
