-- ===== src/Domain/Account/Invariant/Arithmetic.antt =====
-- Sums and bounds of the balances under each effect (src/domain/account.rs).
use nda_takehome.Base.{ℕ, true, false, not, [], ◌∷◌, ◌≡◌, refl, arith, is_empty, ap}
use nda_takehome.Base.Int.{ℤ, pos, ◌+ℤ◌, ◌-ℤ◌, ◌≤ℤ◌, ltb_ℤ, pos_part, neg_part, int_laws}
use nda_takehome.Collections.{HashSet, contains, add}
use nda_takehome.Domain.Amount
use nda_takehome.Domain.Account.State.{Account}
use nda_takehome.Domain.Account.Invariant.{IsConsistent}

-- The arithmetic of the five effects.
module _ (t a h x : ℤ) (balanced : t ≡ a +ℤ h) where
  pub deposit_balance : t +ℤ x ≡ a +ℤ x +ℤ h
  deposit_balance = rw balanced (omega int_laws)

  pub withdrawal_balance : t -ℤ x ≡ a -ℤ x +ℤ h
  withdrawal_balance = rw balanced (omega int_laws)

  pub dispute_balance : t ≡ a -ℤ x +ℤ (h +ℤ x)
  dispute_balance = rw balanced (omega int_laws)

  pub resolve_balance : t ≡ a +ℤ x +ℤ (h -ℤ x)
  resolve_balance = rw balanced (omega int_laws)

  pub chargeback_balance : t -ℤ x ≡ a +ℤ (h -ℤ x)
  chargeback_balance = rw balanced (omega int_laws)

  pub withdrawal_solvent : pos 0 ≤ℤ h → x ≤ℤ a → pos 0 ≤ℤ t -ℤ x
  withdrawal_solvent held enough = rw balanced (omega int_laws)

module _ (h x sum sum' : ℤ) (pending : h ≡ sum) where
  pub pending_enters : sum' +ℤ pos 0 ≡ sum +ℤ x → h +ℤ x ≡ sum'
  pending_enters e = rw (pending, ← e) (omega int_laws)

  pub pending_leaves : sum' +ℤ x ≡ sum +ℤ pos 0 → h -ℤ x ≡ sum'
  pending_leaves e = rw pending (omega (int_laws, ap pos_part e, ap neg_part e))

pub positive_amount : (a : ℤ) → Amount.is_positive a ≡ true → pos 1 ≤ℤ a
positive_amount a h = ground arith

pub not_ltb : (a b : ℤ) → ltb_ℤ a b ≡ false → b ≤ℤ a
not_ltb a b h = ground arith

pub deposit_solvent : (t x : ℤ) → pos 0 ≤ℤ t → pos 1 ≤ℤ x → pos 0 ≤ℤ t +ℤ x
deposit_solvent t x h p = omega int_laws

pub not_empty-add : (k : ℕ) (xs : HashSet) → not (is_empty (add k xs)) ≡ true
unfolding add contains
not_empty-add k [] = refl
not_empty-add k (x ∷ xs) = ground arith

pub unlocked_solvent : {acc : Account} → IsConsistent acc → acc.locked ≡ false → pos 0 ≤ℤ acc.total
unlocked_solvent c u = ground (arith, c.solvent)
