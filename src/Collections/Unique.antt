-- ===== src/Collections/Unique.antt =====
-- Representations with each key once, under every update (Collections.antt).
use nda_takehome.Base.{ℕ, suc, ⊤, ◌≡◌, refl, Bool, true, false, none, some, [], ◌∷◌, arith, length}
use nda_takehome.Collections.{
  HashMap, HashSet, get, insert, modify_at, all_entries, contains, add, remove,
}
use nda_takehome.Collections.Laws.{get-insert, get-modify_at, contains-remove}

abbrev pub IsUnique : HashSet → Type 0
IsUnique [] = ⊤
IsUnique (x ∷ xs) = (contains x xs ≡ false) × IsUnique xs

module _ {ℓ} {V : Type ℓ} where
  abbrev pub HasUniqueKeys : HashMap V → Type ℓ
  HasUniqueKeys [] = Unit
  HasUniqueKeys ((k, v) ∷ m) = (get k m ≡ none) × HasUniqueKeys m

  pub insert-HasUniqueKeys :
      (k : ℕ) (v : V) (m : HashMap V) → HasUniqueKeys m → HasUniqueKeys (insert k v m)
  unfolding insert
  insert-HasUniqueKeys k v [] h = unfold get in (refl, tt)
  insert-HasUniqueKeys k v ((j, w) ∷ m) h =
      ground (arith, insert-HasUniqueKeys k v m h.1, get-insert k j v m)

  pub modify_at-HasUniqueKeys :
      (k : ℕ) (f : V → V) (m : HashMap V) → HasUniqueKeys m → HasUniqueKeys (modify_at k f m)
  unfolding modify_at
  modify_at-HasUniqueKeys k f [] h = tt
  modify_at-HasUniqueKeys k f ((j, w) ∷ m) h =
      ground (arith, modify_at-HasUniqueKeys k f m h.1, get-modify_at k j f m)

  pub length-insert_new :
      (k : ℕ) (v : V) (m : HashMap V) → get k m ≡ none → length (insert k v m) ≡ suc (length m)
  unfolding insert get
  length-insert_new k v [] h = refl
  length-insert_new k v ((j, w) ∷ m) h = ground (arith, length-insert_new k v m)

  pub length-modify_at : (k : ℕ) (f : V → V) (m : HashMap V) → length (modify_at k f m) ≡ length m
  unfolding modify_at
  length-modify_at k f [] = refl
  length-modify_at k f ((j, w) ∷ m) = ground (arith, length-modify_at k f m)

  -- In a map with each key once, what holds of every value that is found holds of every entry.
  pub all_entries_of_get :
      (p : ℕ → V → Bool) (m : HashMap V)
      → HasUniqueKeys m
      → ((k : ℕ) (v : V) → get k m ≡ some v → p k v ≡ true)
      → all_entries p m ≡ true
  unfolding all_entries get
  all_entries_of_get p [] u h = refl
  all_entries_of_get p ((k, v) ∷ m) u h =
      ground (arith, h k v, all_entries_of_get p m u.1 (λ j w e. h j w (ground arith)))

pub add-IsUnique : (k : ℕ) (xs : HashSet) → IsUnique xs → IsUnique (add k xs)
unfolding add
add-IsUnique k xs h = ground arith

pub remove-IsUnique : (k : ℕ) (xs : HashSet) → IsUnique xs → IsUnique (remove k xs)
unfolding remove
remove-IsUnique k [] h = tt
remove-IsUnique k (x ∷ xs) h = ground (arith, remove-IsUnique k xs h.1, contains-remove k x xs)

pub length-add_new :
    (k : ℕ) (xs : HashSet) → contains k xs ≡ false → length (add k xs) ≡ suc (length xs)
unfolding add
length-add_new k xs h = ground arith

remove_absent : (k : ℕ) (xs : HashSet) → contains k xs ≡ false → remove k xs ≡ xs
unfolding remove contains
remove_absent k [] h = refl
remove_absent k (x ∷ xs) h = ground (arith, remove_absent k xs)

pub length-remove :
    (k : ℕ) (xs : HashSet)
    → IsUnique xs
    → contains k xs ≡ true
    → suc (length (remove k xs)) ≡ length xs
unfolding remove contains
length-remove k [] u h = ground arith
length-remove k (x ∷ xs) u h = ground (arith, length-remove k xs u.1, remove_absent k xs)
