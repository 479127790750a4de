-- ===== src/Collections/Heap.antt =====
-- `std::collections::BinaryHeap`: `pop` takes out a greatest element. Which of several equal
-- elements comes first is unspecified there; here it is the one that was pushed first.
pub mod Order
pub mod Arrival
use nda_takehome.Base.{
  ℕ, zero, suc, Ordering, Option, none, some, List, [], ◌∷◌, ◌++◌, if◌then◌else◌, Bool, true, false,
}

module _ {ℓ} {A : Type ℓ} (cmp : A → A → Ordering) where
  abbrev pub is_greater : A → A → Bool
  is_greater x y = elim (cmp x y) [ Ordering.gt ↦ true | _ ↦ false ]

  -- A greatest element of `x ∷ xs`, and the others.
  unfoldable pub select : A → List A → A × List A
  select x [] = (x, [])
  select x (y ∷ ys) =
      let (greatest, others) = select y ys in
      if is_greater greatest x then (greatest, x ∷ others) else (x, y ∷ ys)

  -- `BinaryHeap::pop`
  unfoldable pub pop : List A → Option (A × List A)
  unfolding select
  pop [] = none
  pop (x ∷ xs) = some (select x xs)

-- `BinaryHeap::push`
abbrev pub push {ℓ} : {A : Type ℓ} → A → List A → List A
push x heap = heap ++ x ∷ []
