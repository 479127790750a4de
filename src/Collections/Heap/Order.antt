-- ===== src/Collections/Heap/Order.antt =====
-- The order in which a heap gives out its elements (Collections/Heap.antt).
use nda_takehome.Base.{
  ℕ, zero, suc, Ordering, ◌≡◌, refl, inl, inr, none, some, List, [], ◌∷◌, true, false, arith, All,
  Bool-cases, length, ap, sym, subst, ◌≤◌,
}
use mathlib.Core.List.{Perm}
use mathlib.Core.List.Perm
use nda_takehome.Collections.Heap.{is_greater, select, pop}

-- What `Ord` promises.
pub record IsOrder {ℓ} {A : Type ℓ} (cmp : A → A → Ordering) : Type ℓ where
  pub asym : (x y : A) → is_greater cmp x y ≡ true → is_greater cmp y x ≡ false
  pub not_greater_trans :
      (x y z : A)
      → is_greater cmp x y ≡ false
      → is_greater cmp y z ≡ false
      → is_greater cmp x z ≡ false

module _ {ℓ} {A : Type ℓ} (cmp : A → A → Ordering) where
  abbrev pub NoneGreater : A → List A → Type 0
  NoneGreater m = All (λ y. is_greater cmp y m ≡ false)

  -- No element is greater than one before it.
  abbrev pub IsDescending : List A → Type 0
  IsDescending [] = Unit
  IsDescending (x ∷ xs) = NoneGreater x xs × IsDescending xs

  -- Each element is greater than all behind it.
  abbrev pub IsStrict : List A → Type 0
  IsStrict [] = Unit
  IsStrict (x ∷ xs) = All (λ y. is_greater cmp x y ≡ true) xs × IsStrict xs

  -- The elements in the order in which `pop` takes them out.
  unfoldable pub pop_all : ℕ → List A → List A
  pop_all zero heap = []
  pop_all (suc n) heap = elim (pop cmp heap) [ none ↦ [] | some (x, rest) ↦ x ∷ pop_all n rest ]

  select_greater :
      (x y : A) (ys : List A)
      → is_greater cmp (select cmp y ys).0 x ≡ true
      → (select cmp x (y ∷ ys)).0 ≡ (select cmp y ys).0
  unfolding select
  select_greater x y ys g = rw g refl

  select_first :
      (x y : A) (ys : List A)
      → is_greater cmp (select cmp y ys).0 x ≡ false
      → (select cmp x (y ∷ ys)).0 ≡ x
  unfolding select
  select_first x y ys n = rw n refl

  pub select-perm :
      (x : A) (xs : List A) → Perm (x ∷ xs) ((select cmp x xs).0 ∷ (select cmp x xs).1)
  unfolding select
  select-perm x [] = Perm.refl (x ∷ [])
  select-perm x (y ∷ ys) = elim (Bool-cases (is_greater cmp (select cmp y ys).0 x)) [
    | inl g ↦ rw g (Perm.trans (Perm.cons x (select-perm y ys)) (Perm.swap _ _ _))
    | inr n ↦ rw n (Perm.refl (x ∷ y ∷ ys))
  ]

  pub length-select : (x : A) (xs : List A) → length (select cmp x xs).1 ≡ length xs
  unfolding select
  length-select x [] = refl
  length-select x (y ∷ ys) = ground (arith, length-select y ys)

  pub length-pop_all :
      (n : ℕ) (heap : List A) → length heap ≤ n → length (pop_all n heap) ≡ length heap
  unfolding pop_all pop
  length-pop_all zero [] h = refl
  length-pop_all zero (x ∷ xs) h = elim h [ ]
  length-pop_all (suc n) [] h = refl
  length-pop_all (suc n) (x ∷ xs) h =
      let shorter = length-select x xs in
      omega (arith, length-pop_all n (select cmp x xs).1 (omega arith))

  pub pop_all-perm : (n : ℕ) (heap : List A) → length heap ≤ n → Perm heap (pop_all n heap)
  unfolding pop_all pop
  pop_all-perm zero [] h = Perm.refl []
  pop_all-perm zero (x ∷ xs) h = elim h [ ]
  pop_all-perm (suc n) [] h = Perm.refl []
  pop_all-perm (suc n) (x ∷ xs) h =
      Perm.trans (select-perm x xs)
        (Perm.cons _ (pop_all-perm n (select cmp x xs).1 (omega (arith, length-select x xs))))

  select-All {κ} :
      (P : A → Type κ) (x : A) (xs : List A)
      → All P (x ∷ xs)
      → P (select cmp x xs).0 × All P (select cmp x xs).1
  unfolding select
  select-All P x [] h = h
  select-All P x (y ∷ ys) h =
      let (px, rest) = h in
      let ih = select-All P y ys rest in
      elim (Bool-cases (is_greater cmp (select cmp y ys).0 x)) [
        | inl g ↦ rw g (ih.0, (px, ih.1))
        | inr n ↦ rw n (px, rest)
      ]

  pop_all-All {κ} : (P : A → Type κ) (n : ℕ) (heap : List A) → All P heap → All P (pop_all n heap)
  unfolding pop_all pop
  pop_all-All P zero heap h = tt
  pop_all-All P (suc n) [] h = tt
  pop_all-All P (suc n) (x ∷ xs) h =
      let (first, rest) = select-All P x xs h in (first, pop_all-All P n (select cmp x xs).1 rest)

  module _ (order : IsOrder cmp) where
    irrefl : (x : A) → is_greater cmp x x ≡ false
    irrefl x = elim (Bool-cases (is_greater cmp x x)) [ inl g ↦ order.asym x x g | inr n ↦ n ]

    NoneGreater-trans :
        (m x : A) (xs : List A) → is_greater cmp m x ≡ false → NoneGreater m xs → NoneGreater x xs
    NoneGreater-trans m x [] h k = tt
    NoneGreater-trans m x (y ∷ ys) h k =
        (order.not_greater_trans y m x k.0 h, NoneGreater-trans m x ys h k.1)

    select-NoneGreater : (x : A) (xs : List A) → NoneGreater (select cmp x xs).0 (x ∷ xs)
    unfolding select
    select-NoneGreater x [] = (irrefl x, tt)
    select-NoneGreater x (y ∷ ys) =
        let m = (select cmp y ys).0 in
        elim (Bool-cases (is_greater cmp m x)) [
          | inl g ↦
              subst (λ t. NoneGreater t (x ∷ y ∷ ys)) (sym (select_greater x y ys g))
                (order.asym m x g, select-NoneGreater y ys)
          | inr n ↦
              subst (λ t. NoneGreater t (x ∷ y ∷ ys)) (sym (select_first x y ys n))
                (irrefl x, NoneGreater-trans m x (y ∷ ys) n (select-NoneGreater y ys))
        ]

    pub select-others : (x : A) (xs : List A) → NoneGreater (select cmp x xs).0 (select cmp x xs).1
    unfolding select
    select-others x [] = tt
    select-others x (y ∷ ys) =
        let m = (select cmp y ys).0 in
        elim (Bool-cases (is_greater cmp m x)) [
          | inl g ↦ rw g (order.asym m x g, select-others y ys)
          | inr n ↦ rw n (NoneGreater-trans m x (y ∷ ys) n (select-NoneGreater y ys))
        ]

    -- Popping everything gives the elements in descending order.
    pub pop_all-IsDescending : (n : ℕ) (heap : List A) → IsDescending (pop_all n heap)
    unfolding pop_all pop
    pop_all-IsDescending zero heap = tt
    pop_all-IsDescending (suc n) [] = tt
    pop_all-IsDescending (suc n) (x ∷ xs) =
        let (greatest, others) = select cmp x xs in
        (
          pop_all-All (λ y. is_greater cmp y greatest ≡ false) n others (select-others x xs),
          pop_all-IsDescending n others,
        )

    -- A heap that was filled in descending order is popped in that order.
    pub select_strict : (x : A) (xs : List A) → IsStrict (x ∷ xs) → select cmp x xs ≡ (x, xs)
    unfolding select
    select_strict x [] h = refl
    select_strict x (y ∷ ys) h = rw (select_strict y ys h.1, order.asym x y h.0.0) refl

    pub pop_all_strict : (n : ℕ) (xs : List A) → IsStrict xs → length xs ≤ n → pop_all n xs ≡ xs
    unfolding pop_all pop
    pop_all_strict zero [] h l = refl
    pop_all_strict zero (x ∷ xs) h l = elim l [ ]
    pop_all_strict (suc n) [] h l = refl
    pop_all_strict (suc n) (x ∷ xs) h l =
        rw (select_strict x xs h) (ap (λ t. x ∷ t) (pop_all_strict n xs h.1 (omega arith)))
