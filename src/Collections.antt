-- ===== src/Collections.antt =====
-- `std::collections::HashMap` and `HashSet`, keyed by numbers, as the source uses them.
-- A map is an association list with each key once, a set a list with each element once; the order
-- of the entries, which the program must not depend on, is that of insertion.
pub mod Laws
pub mod Unique
pub mod Sums
pub mod Heap
use nda_takehome.Base.{
  ℕ, Bool, true, false, ◌&&◌, not, ◌||◌, Option, none, some, List, [], ◌∷◌, ◌==◌, all,
  if◌then◌else◌,
}

abbrev pub HashMap {ℓ} : Type ℓ → Type ℓ
HashMap V = List (ℕ × V)

abbrev pub HashSet : Type 0
HashSet = List ℕ

module _ {ℓ} {V : Type ℓ} where
  -- `HashMap::get`
  unfoldable pub get : ℕ → HashMap V → Option V
  get k [] = none
  get k ((j, v) ∷ m) = if k == j then some v else get k m

  -- `HashMap::contains_key`
  unfoldable pub contains_key : ℕ → HashMap V → Bool
  unfolding get
  contains_key k m = elim (get k m) [ none ↦ false | some _ ↦ true ]

  -- `HashMap::insert`: an old value of the key is replaced.
  unfoldable pub insert : ℕ → V → HashMap V → HashMap V
  insert k v [] = (k, v) ∷ []
  insert k v ((j, w) ∷ m) = if k == j then (k, v) ∷ m else (j, w) ∷ insert k v m

  -- A write through `HashMap::get_mut`, if there is an entry.
  unfoldable pub modify_at : ℕ → (V → V) → HashMap V → HashMap V
  modify_at k f [] = []
  modify_at k f ((j, v) ∷ m) = if k == j then (j, f v) ∷ m else (j, v) ∷ modify_at k f m

  -- A test of each entry, as a `for` loop over the map makes it.
  unfoldable pub all_entries : (ℕ → V → Bool) → HashMap V → Bool
  all_entries p [] = true
  all_entries p ((k, v) ∷ m) = p k v && all_entries p m

-- `HashSet::contains`
unfoldable pub contains : ℕ → HashSet → Bool
contains k [] = false
contains k (x ∷ xs) = k == x || contains k xs

-- `HashSet::insert`
unfoldable pub add : ℕ → HashSet → HashSet
unfolding contains
add k xs = if contains k xs then xs else k ∷ xs

-- `HashSet::remove`
unfoldable pub remove : ℕ → HashSet → HashSet
remove k [] = []
remove k (x ∷ xs) = if k == x then remove k xs else x ∷ remove k xs

-- `HashSet::is_disjoint`
unfoldable pub is_disjoint : HashSet → HashSet → Bool
unfolding contains
is_disjoint xs ys = all (λ x. not (contains x ys)) xs
