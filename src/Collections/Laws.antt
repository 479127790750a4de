-- ===== src/Collections/Laws.antt =====
-- What a lookup finds after each update of a map or a set (Collections.antt).
use nda_takehome.Base.{
  ℕ, ◌≡◌, refl, Bool, true, false, none, some, [], ◌∷◌, arith, ◌==◌, if◌then◌else◌, all,
}
use mathlib.Core.Option
use nda_takehome.Collections.{
  HashMap, HashSet, get, contains_key, insert, modify_at, contains, add, remove, is_disjoint,
}

module _ {ℓ} {V : Type ℓ} where
  pub get-insert :
      (k j : ℕ) (v : V) (m : HashMap V)
      → get j (insert k v m) ≡ (if j == k then some v else get j m)
  unfolding get insert
  get-insert k j v [] = ground arith
  get-insert k j v ((i, w) ∷ m) = ground (arith, get-insert k j v m)

  pub get-modify_at :
      (k j : ℕ) (f : V → V) (m : HashMap V)
      → get j (modify_at k f m) ≡ (if j == k then Option.map f (get j m) else get j m)
  unfolding get modify_at
  get-modify_at k j f [] = ground arith
  get-modify_at k j f ((i, w) ∷ m) = ground (arith, get-modify_at k j f m)

  pub contains_key-some :
      (k : ℕ) {v : V} (m : HashMap V) → get k m ≡ some v → contains_key k m ≡ true
  unfolding contains_key
  contains_key-some k m h = ground arith

  pub contains_key-none : (k : ℕ) (m : HashMap V) → get k m ≡ none → contains_key k m ≡ false
  unfolding contains_key
  contains_key-none k m h = ground arith

  pub get-none_of : (k : ℕ) (m : HashMap V) → contains_key k m ≡ false → get k m ≡ none
  unfolding contains_key
  get-none_of k m h = ground arith

pub contains-add :
    (k j : ℕ) (xs : HashSet) → contains j (add k xs) ≡ (if j == k then true else contains j xs)
unfolding contains add
contains-add k j xs = ground arith

pub contains-remove :
    (k j : ℕ) (xs : HashSet) → contains j (remove k xs) ≡ (if j == k then false else contains j xs)
unfolding contains remove
contains-remove k j [] = ground arith
contains-remove k j (x ∷ xs) = ground (arith, contains-remove k j xs)

pub all_of_contains :
    (p : ℕ → Bool) (xs : HashSet) → ((k : ℕ) → contains k xs ≡ true → p k ≡ true) → all p xs ≡ true
unfolding contains
all_of_contains p [] h = refl
all_of_contains p (x ∷ xs) h = ground (arith, h x, all_of_contains p xs (λ k c. h k (ground arith)))

pub is_disjoint_of :
    (xs ys : HashSet)
    → ((k : ℕ) → contains k xs ≡ true → contains k ys ≡ false)
    → is_disjoint xs ys ≡ true
unfolding is_disjoint
is_disjoint_of xs ys h = all_of_contains _ xs (λ k c. ground (arith, h k c))
