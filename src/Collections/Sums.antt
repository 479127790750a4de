-- ===== src/Collections/Sums.antt =====
-- The sum of a value over the entries of a map, under each update.
use nda_takehome.Base.{ℕ, none, some, ◌≡◌, ap, ◌∙◌, arith, [], ◌∷◌}
use nda_takehome.Base.Int.{ℤ, pos, ◌+ℤ◌, int_laws, +ℤ_shift, +ℤ_swap, +ℤ_assoc, +ℤ_cancel}
use nda_takehome.Collections.{HashMap, get, insert, modify_at}

module _ {ℓ} {V : Type ℓ} (f : V → ℤ) where
  abbrev pub sum_by : HashMap V → ℤ
  sum_by [] = pos 0
  sum_by ((_, v) ∷ m) = f v +ℤ sum_by m

  pub sum_by-insert_new :
      (k : ℕ) (v : V) (m : HashMap V) → get k m ≡ none → sum_by (insert k v m) ≡ sum_by m +ℤ f v
  unfolding insert get
  sum_by-insert_new k v [] h = omega int_laws
  sum_by-insert_new k v ((j, w) ∷ m) h =
      ground (arith, sum_by-insert_new k v m, +ℤ_assoc (f w) (sum_by m) (f v))

  pub sum_by-modify_at :
      (k : ℕ) (g : V → V) (v : V) (m : HashMap V)
      → get k m ≡ some v
      → sum_by (modify_at k g m) +ℤ f v ≡ sum_by m +ℤ f (g v)
  unfolding modify_at get
  sum_by-modify_at k g v [] h = ground arith
  sum_by-modify_at k g v ((j, w) ∷ m) h = ground (
    arith,
    +ℤ_swap (f (g v)) (f v) (sum_by m),
    +ℤ_shift (f w) (sum_by (modify_at k g m)) (f v) (sum_by m) (f (g v)),
    sum_by-modify_at k g v m,
  )

  -- Where the value does not change, neither does the sum.
  pub sum_by-modify_at_same :
      (k : ℕ) (g : V → V) (v : V) (m : HashMap V)
      → get k m ≡ some v
      → f (g v) ≡ f v
      → sum_by (modify_at k g m) ≡ sum_by m
  sum_by-modify_at_same k g v m h same =
      +ℤ_cancel (sum_by (modify_at k g m)) (sum_by m) (f v)
        (sum_by-modify_at k g v m h ∙ ap (λ x. sum_by m +ℤ x) same)
