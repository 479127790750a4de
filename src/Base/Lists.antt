-- ===== src/Base/Lists.antt =====
-- Lists measured by native numbers, Boolean searches that run, and predicates on lists.
use Prim.Native.Nat.{ℕ, zero, suc, ◌+◌, ◌<◌}
use mathlib.Core.Path.{◌≡◌, refl}
use mathlib.Core.Bool.{Bool, true, false, ◌&&◌}
use mathlib.Core.List.{List, [], ◌∷◌, ◌++◌, map}
use native.Mathlib.Omega.{arith}

module _ {ℓ} {A : Type ℓ} where
  abbrev pub length : List A → ℕ
  length [] = 0
  length (x ∷ xs) = suc (length xs)

  abbrev pub is_empty : List A → Bool
  is_empty [] = true
  is_empty (x ∷ xs) = false

  pub is_empty-nil : (xs : List A) → is_empty xs ≡ true → xs ≡ []
  is_empty-nil [] e = refl
  is_empty-nil (x ∷ xs) e = ground arith

  -- `Iterator::all`
  abbrev pub all : (A → Bool) → List A → Bool
  all p [] = true
  all p (x ∷ xs) = p x && all p xs

  abbrev pub take : ℕ → List A → List A
  take zero xs = []
  take (suc n) [] = []
  take (suc n) (x ∷ xs) = x ∷ take n xs

  abbrev pub drop : ℕ → List A → List A
  drop zero xs = xs
  drop (suc n) [] = []
  drop (suc n) (x ∷ xs) = drop n xs

  abbrev pub replicate : ℕ → A → List A
  replicate zero a = []
  replicate (suc n) a = a ∷ replicate n a

  pub length-replicate : (n : ℕ) (a : A) → length (replicate n a) ≡ n
  length-replicate zero a = refl
  length-replicate (suc n) a = omega (arith, length-replicate n a)

  pub lt-drop : (n : ℕ) (y : A) (xs ys : List A) → drop n xs ≡ y ∷ ys → n < length xs
  lt-drop zero y [] ys e = ground arith
  lt-drop zero y (x ∷ xs) ys e = omega arith
  lt-drop (suc n) y [] ys e = ground arith
  lt-drop (suc n) y (x ∷ xs) ys e = omega (arith, lt-drop n y xs ys e)

  pub length-append : (xs ys : List A) → length (xs ++ ys) ≡ length xs + length ys
  length-append [] ys = omega arith
  length-append (x ∷ xs) ys = omega (arith, length-append xs ys)

module _ {ℓ κ} {A : Type ℓ} (P : A → Type κ) where
  abbrev pub All : List A → Type κ
  All [] = Unit
  All (x ∷ xs) = P x × All xs

  pub All-append : (xs ys : List A) → All xs → All ys → All (xs ++ ys)
  All-append [] ys hx hy = hy
  All-append (x ∷ xs) ys (px, hx) hy = (px, All-append xs ys hx hy)

  pub All-left : (xs ys : List A) → All (xs ++ ys) → All xs
  All-left [] ys h = tt
  All-left (x ∷ xs) ys (px, h) = (px, All-left xs ys h)

  pub All-replicate : (n : ℕ) (a : A) → P a → All (replicate n a)
  All-replicate zero a h = tt
  All-replicate (suc n) a h = (h, All-replicate n a h)

module _ {ℓ κ} {A : Type ℓ} {B : Type κ} (P : A → B → Type 0) where
  -- The lists are of one length, and `P` holds at each place.
  abbrev pub Pointwise : List A → List B → Type 0
  Pointwise [] [] = Unit
  Pointwise [] (y ∷ ys) = ⊥
  Pointwise (x ∷ xs) [] = ⊥
  Pointwise (x ∷ xs) (y ∷ ys) = P x y × Pointwise xs ys

  pub Pointwise-append :
      (xs xs' : List A) (ys ys' : List B)
      → Pointwise xs ys
      → Pointwise xs' ys'
      → Pointwise (xs ++ xs') (ys ++ ys')
  Pointwise-append [] xs' [] ys' h h' = h'
  Pointwise-append [] xs' (y ∷ ys) ys' h h' = elim h [ ]
  Pointwise-append (x ∷ xs) xs' [] ys' h h' = elim h [ ]
  Pointwise-append (x ∷ xs) xs' (y ∷ ys) ys' (p, h) h' = (p, Pointwise-append xs xs' ys ys' h h')

  pub Pointwise-map {ν} :
      {C : Type ν} (f : C → A) (g : C → B) (l : List C)
      → ((c : C) → P (f c) (g c))
      → Pointwise (map f l) (map g l)
  Pointwise-map f g [] h = tt
  Pointwise-map f g (c ∷ l) h = (h c, Pointwise-map f g l h)
