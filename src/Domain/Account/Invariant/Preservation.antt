-- ===== src/Domain/Account/Invariant/Preservation.antt =====
-- The invariant under every way to settle a message (src/domain/account.rs).
use nda_takehome.Base.{⊤, refl, inr, arith}
use nda_takehome.Base.Int.{◌+ℤ◌, ◌-ℤ◌, int_laws}
use nda_takehome.Base.Outcome.{Outcome, Build, debug, release}
use nda_takehome.Collections.{get, contains}
use nda_takehome.Domain.Transaction.{ClientId}
use nda_takehome.Message.{InputMessage}
use nda_takehome.Service.Error.{TransactionError}
use nda_takehome.Domain.Account.State.{Account, new}
use nda_takehome.Domain.Account.Operations.{push_history}
use nda_takehome.Domain.Account.Settlement.{
  Settles, refused, deposits, withdraws, disputes, resolves, charges_back,
}
use nda_takehome.Domain.Account.Invariant.{IsConsistent}
use nda_takehome.Domain.Account.Invariant.Pending.{sum_pending_nonneg}
use nda_takehome.Domain.Account.Invariant.Arithmetic.{
  deposit_balance, withdrawal_balance, withdrawal_solvent, positive_amount, not_ltb,
  deposit_solvent, unlocked_solvent,
}
use nda_takehome.Domain.Account.Invariant.Recording.{recorded-IsConsistent}
use nda_takehome.Domain.Account.Invariant.Moving.{
  after_dispute-IsConsistent, after_resolve-IsConsistent, after_chargeback-IsConsistent,
}

pub new-IsConsistent : (client_id : ClientId) → IsConsistent (new client_id)
unfolding get contains
new-IsConsistent client_id = record {
  balanced = omega int_laws;
  solvent = inr (omega arith);
  pending = refl;
  positive = tt;
  locked_iff = refl;
  tracks_normal = λ k. refl;
  tracks_disputed = λ k. refl;
  tracks_resolved = λ k. refl;
  tracks_chargeback = λ k. refl;
  unique_keys = tt;
  unique_normal = tt;
  unique_disputes = tt;
  unique_resolves = tt;
  unique_chargebacks = tt;
  counted = refl;
}

-- Settling a message keeps the account consistent, refused or not.
pub Settles-IsConsistent :
    {acc : Account} {msg : InputMessage} {r : Outcome TransactionError ⊤} {acc' : Account}
    → Settles acc msg r acc'
    → IsConsistent acc
    → IsConsistent acc'
Settles-IsConsistent (refused why) c = c
Settles-IsConsistent {acc} {msg = msg} (deposits u t p e) c =
    recorded-IsConsistent msg (acc.available +ℤ msg.amount) (acc.total +ℤ msg.amount) c e p
      (deposit_balance acc.total acc.available acc.held msg.amount c.balanced)
      (deposit_solvent acc.total msg.amount (unlocked_solvent c u) (positive_amount msg.amount p))
Settles-IsConsistent {acc} {msg = msg} (withdraws u t p e enough) c =
    recorded-IsConsistent msg (acc.available -ℤ msg.amount) (acc.total -ℤ msg.amount) c e p
      (withdrawal_balance acc.total acc.available acc.held msg.amount c.balanced)
      (withdrawal_solvent acc.total acc.available acc.held msg.amount c.balanced
        (rw c.pending (sum_pending_nonneg acc.transactions c.positive))
        (not_ltb acc.available msg.amount enough))
Settles-IsConsistent {msg = msg} (disputes original u t e) c =
    after_dispute-IsConsistent msg.transaction_id original c e
Settles-IsConsistent {msg = msg} (resolves original u t e) c =
    after_resolve-IsConsistent msg.transaction_id original c e
Settles-IsConsistent {msg = msg} (charges_back original u t e) c =
    after_chargeback-IsConsistent msg.transaction_id original c e

-- What a debug build logs is no part of the invariant.
pub push_history-IsConsistent :
    (build : Build) (msg : InputMessage) {acc : Account}
    → IsConsistent acc
    → IsConsistent (push_history build msg acc)
push_history-IsConsistent debug msg c = record {
  balanced = c.balanced;
  solvent = c.solvent;
  pending = c.pending;
  positive = c.positive;
  locked_iff = c.locked_iff;
  tracks_normal = c.tracks_normal;
  tracks_disputed = c.tracks_disputed;
  tracks_resolved = c.tracks_resolved;
  tracks_chargeback = c.tracks_chargeback;
  unique_keys = c.unique_keys;
  unique_normal = c.unique_normal;
  unique_disputes = c.unique_disputes;
  unique_resolves = c.unique_resolves;
  unique_chargebacks = c.unique_chargebacks;
  counted = c.counted;
}
push_history-IsConsistent release msg c = c
