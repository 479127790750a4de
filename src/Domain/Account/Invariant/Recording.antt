-- ===== src/Domain/Account/Invariant/Recording.antt =====
-- The invariant when a transaction is recorded (src/domain/account.rs).
use nda_takehome.Base.{true, none, ◌≡◌, refl, inr, arith, sym, ◌∙◌}
use nda_takehome.Base.Int.{ℤ, pos, ◌+ℤ◌, ◌≤ℤ◌}
use nda_takehome.Collections.{get, add, insert}
use nda_takehome.Collections.Unique.{
  insert-HasUniqueKeys, length-insert_new, add-IsUnique, length-add_new,
}
use nda_takehome.Domain.Amount
use nda_takehome.Message.{InputMessage}
use nda_takehome.Domain.Account.State.{Account, normal, disputed, resolved, chargeback}
use nda_takehome.Domain.Account.Invariant.{IsConsistent}
use nda_takehome.Domain.Account.Invariant.Tracking.{Tracks-record_same, Tracks-record_other}
use nda_takehome.Domain.Account.Invariant.Pending.{sum_pending-insert_new, insert-AllPositive}
use nda_takehome.Domain.Account.Invariant.Arithmetic.{positive_amount}

abbrev recorded : Account → InputMessage → ℤ → ℤ → Account
recorded acc msg available total = record acc {
  transactions = insert msg.transaction_id (normal, msg) acc.transactions;
  normal = add msg.transaction_id acc.normal;
  available = available;
  total = total;
}

-- What deposits and withdrawals share: a transaction is recorded as normal.
module _ {acc : Account} (msg : InputMessage) (available total : ℤ) (c : IsConsistent acc)
    (new_key : get msg.transaction_id acc.transactions ≡ none)
    (positive : Amount.is_positive msg.amount ≡ true) (balanced : total ≡ available +ℤ acc.held)
    (solvent : pos 0 ≤ℤ total) where
  pub recorded-IsConsistent : IsConsistent (recorded acc msg available total)
  recorded-IsConsistent =
      let k = msg.transaction_id in
      record {
        balanced = balanced;
        solvent = inr solvent;
        pending = c.pending ∙ sym (sum_pending-insert_new k msg acc.transactions new_key);
        positive =
            insert-AllPositive k (normal, msg) acc.transactions
              (positive_amount msg.amount positive) c.positive;
        locked_iff = c.locked_iff;
        tracks_normal = Tracks-record_same normal acc.normal acc.transactions k msg c.tracks_normal;
        tracks_disputed =
            Tracks-record_other disputed acc.disputes acc.transactions k normal msg refl new_key
              c.tracks_disputed;
        tracks_resolved =
            Tracks-record_other resolved acc.resolves acc.transactions k normal msg refl new_key
              c.tracks_resolved;
        tracks_chargeback =
            Tracks-record_other chargeback acc.chargebacks acc.transactions k normal msg refl
              new_key c.tracks_chargeback;
        unique_keys = insert-HasUniqueKeys k (normal, msg) acc.transactions c.unique_keys;
        unique_normal = add-IsUnique k acc.normal c.unique_normal;
        unique_disputes = c.unique_disputes;
        unique_resolves = c.unique_resolves;
        unique_chargebacks = c.unique_chargebacks;
        counted = omega (
          arith,
          c.counted,
          length-insert_new k (normal, msg) acc.transactions new_key,
          length-add_new k acc.normal (ground (arith, c.tracks_normal k)),
        );
      }
