-- ===== src/Quint/Invariants.antt =====
-- The invariants of payments.qnt, for the code's account (src/domain/account.rs).
use nda_takehome.Base.{ℕ, true, false, ◌≡◌, ◌⊎◌, inl, inr, refl, arith, Option-cases}
use nda_takehome.Base.Int.{pos, ◌+ℤ◌, ◌≤ℤ◌}
use nda_takehome.Base.Outcome.{Build}
use nda_takehome.Collections.{get}
use nda_takehome.Domain.Transaction.{ClientId}
use nda_takehome.Domain.Account.State.{Account}
use nda_takehome.Domain.Account.Invariant.{IsConsistent}
use nda_takehome.Domain.Account.Invariant.Pending.{sum_pending_nonneg}
use nda_takehome.Domain.Account.History.{Reachable}
use nda_takehome.Domain.Account.History.Safety.{Reachable-IsConsistent}
use nda_takehome.Domain.Account.History.Lifecycle.{locked_iff_charged_back}
use nda_takehome.Quint.{SpecState, TxState, no_tx}
use nda_takehome.Quint.Refinement.{view}

-- `safetyInv`
pub record SafetyInv (s : SpecState) : Type 0 where
  pub total_eq_available_plus_held : s.total ≡ s.available +ℤ s.held
  pub held_non_negative : pos 0 ≤ℤ s.held
  pub total_non_negative_unless_locked : (s.locked ≡ true) ⊎ (pos 0 ≤ℤ s.total)
  pub locked_implies_chargeback :
      s.locked ≡ true → (k : ℕ) × ((s.tx_records k).state ≡ TxState.chargeback)
  pub non_existent_tx_is_clean : (k : ℕ) → (s.tx_records k).exists ≡ false → s.tx_records k ≡ no_tx

consistent-SafetyInv : {acc : Account} → IsConsistent acc → SafetyInv (view acc)
consistent-SafetyInv {acc} c = record {
  total_eq_available_plus_held = c.balanced;
  held_non_negative = rw c.pending (sum_pending_nonneg acc.transactions c.positive);
  total_non_negative_unless_locked = c.solvent;
  locked_implies_chargeback =
      λ l. let (k, msg, e) = (locked_iff_charged_back acc c).0 l in (k, rw e refl);
  non_existent_tx_is_clean = λ k h. elim (Option-cases (get k acc.transactions)) [
    | inl e ↦ rw e refl
    | inr (entry, e) ↦ ground arith
  ];
}

-- Every reachable account meets the specification's five safety invariants: the total is what is
-- available and held, what is held is not negative, nor is the total unless the account is locked,
-- a locked account has a charged-back transaction, and a transaction that is not recorded is clean.
pub Reachable-SafetyInv :
    (build : Build) (client_id : ClientId) (acc : Account)
    → Reachable build client_id acc
    → SafetyInv (view acc)
Reachable-SafetyInv build client_id acc r = consistent-SafetyInv (Reachable-IsConsistent r)
