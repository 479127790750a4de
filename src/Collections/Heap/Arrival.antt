-- ===== src/Collections/Heap/Arrival.antt =====
-- The order in which a heap is filled (Collections/Heap.antt).
use nda_takehome.Base.{
  ◌≡◌, refl, sym, ap, ◌∙◌, inl, inr, Ordering, List, [], ◌∷◌, true, false, All, subst, length,
  arith,
}
use mathlib.Core.Logic.{∥∥₁_elim}
use mathlib.Core.List.{Perm, Mem, not-mem-nil, mem-cons, mem-cons_self}
use mathlib.Core.List.Perm
use nda_takehome.Collections.Heap.{is_greater}
use nda_takehome.Collections.Heap.Order.{
  IsOrder, IsStrict, IsDescending, pop_all, pop_all-perm, pop_all-IsDescending,
}

module _ {ℓ κ} {A : Type ℓ} where
  All-Mem :
      (P : A → Type κ)
      → ((a : A) → IsProp (P a))
      → (x : A) (xs : List A) → All P xs
      → Mem x xs
      → P x
  All-Mem P prop x [] h m = elim (not-mem-nil m) [ ]
  All-Mem P prop x (y ∷ ys) (py, h) m =
      ∥∥₁_elim (mem-cons.0 m) (prop x)
        λ c. elim c [ inl e ↦ subst P (sym e) py | inr later ↦ All-Mem P prop x ys h later ]

module _ {ℓ} {A : Type ℓ} (set : IsSet A) (cmp : A → A → Ordering) where
  head_unique :
      (x y : A) (xs ys : List A)
      → Perm (x ∷ xs) (y ∷ ys)
      → IsStrict cmp (x ∷ xs)
      → IsDescending cmp (y ∷ ys)
      → x ≡ y
  head_unique x y xs ys p strict descending =
      ∥∥₁_elim (mem-cons.0 ((Perm.mem_iff p).0 mem-cons_self)) (set x y) λ c. elim c [
        | inl e ↦ e
        | inr x_later ↦ ∥∥₁_elim (mem-cons.0 ((Perm.mem_iff p).1 mem-cons_self)) (set x y) λ c.
            elim c [
              | inl e ↦ sym e
              | inr y_later ↦
                  let above =
                    All-Mem (λ z. is_greater cmp x z ≡ true) (λ z. hlevel) y xs strict.0 y_later in
                  let below =
                    All-Mem (λ z. is_greater cmp z y ≡ false) (λ z. hlevel) x ys descending.0
                      x_later in
                  ground (arith, above, below)
            ]
      ]

  -- Of one collection there is at most one strict arrangement, and no other that descends.
  pub descending_unique :
      (xs ys : List A) → Perm xs ys → IsStrict cmp xs → IsDescending cmp ys → xs ≡ ys
  descending_unique [] [] p strict descending = refl
  descending_unique [] (y ∷ ys) p strict descending =
      elim (not-mem-nil ((Perm.mem_iff p).1 mem-cons_self)) [ ]
  descending_unique (x ∷ xs) [] p strict descending =
      elim (not-mem-nil ((Perm.mem_iff p).0 mem-cons_self)) [ ]
  descending_unique (x ∷ xs) (y ∷ ys) p strict descending =
      let same = head_unique x y xs ys p strict descending in
      let rest = Perm.cons_inv (subst (λ z. Perm (x ∷ xs) (z ∷ ys)) (sym same) p) in
      ap (λ z. z ∷ xs) same ∙ ap (λ zs. y ∷ zs) (descending_unique xs ys rest strict.1 descending.1)

  -- What a heap gives out does not depend on the order in which it was filled, if no two of its
  -- elements are equal for the order.
  pub pop_all_arrival :
      (order : IsOrder cmp) (xs ys : List A)
      → Perm xs ys
      → IsStrict cmp xs
      → pop_all cmp (length ys) ys ≡ xs
  pop_all_arrival order xs ys p strict = sym (
      descending_unique xs (pop_all cmp (length ys) ys)
        (Perm.trans p (pop_all-perm cmp (length ys) ys (omega arith))) strict
        (pop_all-IsDescending cmp order (length ys) ys))
