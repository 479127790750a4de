-- ===== src/Domain/Account/Settlement.antt =====
-- What an operation of an account may do, as a relation that is independent of the code's control
-- flow: it is refused for a stated reason and leaves the account alone, or has its one effect.
pub mod Prestep
pub mod Soundness
use nda_takehome.Base.{⊤, ℕ, Bool, true, false, Option, none, some, ◌≡◌, ◌⊎◌}
use nda_takehome.Base.Int.{◌+ℤ◌, ◌-ℤ◌, ltb_ℤ}
use nda_takehome.Base.Outcome.{Outcome, ok, err}
use nda_takehome.Collections.{get, insert, add, remove, modify_at}
use nda_takehome.Domain.Amount.{Amount}
use nda_takehome.Domain.Amount
use nda_takehome.Domain.Transaction.{TransactionId, TransactionType}
use nda_takehome.Message.{InputMessage}
use nda_takehome.Service.Error.{
  TransactionError, insufficient_balance, account_locked, invalid_transaction,
  duplicate_transaction, amount_negative,
}
use nda_takehome.Domain.Account.State.{
  Account, TransactionState, normal, disputed, resolved, chargeback, can_transition, set_state,
}

abbrev pub after_deposit : Account → InputMessage → Account
after_deposit acc msg = record acc {
  transactions = insert msg.transaction_id (normal, msg) acc.transactions;
  normal = add msg.transaction_id acc.normal;
  available = acc.available +ℤ msg.amount;
  total = acc.total +ℤ msg.amount;
}

abbrev pub after_withdrawal : Account → InputMessage → Account
after_withdrawal acc msg = record acc {
  transactions = insert msg.transaction_id (normal, msg) acc.transactions;
  normal = add msg.transaction_id acc.normal;
  available = acc.available -ℤ msg.amount;
  total = acc.total -ℤ msg.amount;
}

abbrev pub after_dispute : Account → TransactionId → Amount → Account
after_dispute acc key amount = record acc {
  transactions = modify_at key (set_state disputed) acc.transactions;
  normal = remove key acc.normal;
  disputes = add key acc.disputes;
  available = acc.available -ℤ amount;
  held = acc.held +ℤ amount;
}

abbrev pub after_resolve : Account → TransactionId → Amount → Account
after_resolve acc key amount = record acc {
  transactions = modify_at key (set_state resolved) acc.transactions;
  disputes = remove key acc.disputes;
  resolves = add key acc.resolves;
  available = acc.available +ℤ amount;
  held = acc.held -ℤ amount;
}

abbrev pub after_chargeback : Account → TransactionId → Amount → Account
after_chargeback acc key amount = record acc {
  transactions = modify_at key (set_state chargeback) acc.transactions;
  disputes = remove key acc.disputes;
  chargebacks = add key acc.chargebacks;
  held = acc.held -ℤ amount;
  total = acc.total -ℤ amount;
  locked = true;
}

-- The types that record a new transaction, and the states that the others move one to.
abbrev pub target : TransactionType → Option TransactionState
target TransactionType.deposit = none
target TransactionType.withdrawal = none
target TransactionType.dispute = some disputed
target TransactionType.resolve = some resolved
target TransactionType.chargeback = some chargeback

-- Why a message is refused.
pub data Refuses (acc : Account) (msg : InputMessage) : TransactionError → Type 0 where
  frozen : acc.locked ≡ true → Refuses acc msg account_locked
  not_positive :
      acc.locked ≡ false
      → target msg.transaction_type ≡ none
      → Amount.is_positive msg.amount ≡ false
      → Refuses acc msg amount_negative
  duplicate :
      (entry : TransactionState × InputMessage)
      → acc.locked ≡ false
      → target msg.transaction_type ≡ none
      → Amount.is_positive msg.amount ≡ true
      → get msg.transaction_id acc.transactions ≡ some entry
      → Refuses acc msg duplicate_transaction
  overdrawn :
      acc.locked ≡ false
      → msg.transaction_type ≡ TransactionType.withdrawal
      → Amount.is_positive msg.amount ≡ true
      → get msg.transaction_id acc.transactions ≡ none
      → ltb_ℤ acc.available msg.amount ≡ true
      → Refuses acc msg insufficient_balance
  unknown :
      (to : TransactionState)
      → acc.locked ≡ false
      → target msg.transaction_type ≡ some to
      → get msg.transaction_id acc.transactions ≡ none
      → Refuses acc msg invalid_transaction
  no_transition :
      (to : TransactionState)
      → (entry : TransactionState × InputMessage) → {e : TransactionError} → acc.locked ≡ false
      → target msg.transaction_type ≡ some to
      → get msg.transaction_id acc.transactions ≡ some entry
      → can_transition entry.0 to ≡ err e
      → Refuses acc msg e

-- The message's result and the account behind it.
pub data Settles (acc : Account) (msg : InputMessage)
    : Outcome TransactionError ⊤ → Account → Type 0 where
  refused : {e : TransactionError} → Refuses acc msg e → Settles acc msg (err e) acc
  deposits :
      acc.locked ≡ false
      → msg.transaction_type ≡ TransactionType.deposit
      → Amount.is_positive msg.amount ≡ true
      → get msg.transaction_id acc.transactions ≡ none
      → Settles acc msg (ok tt) (after_deposit acc msg)
  withdraws :
      acc.locked ≡ false
      → msg.transaction_type ≡ TransactionType.withdrawal
      → Amount.is_positive msg.amount ≡ true
      → get msg.transaction_id acc.transactions ≡ none
      → ltb_ℤ acc.available msg.amount ≡ false
      → Settles acc msg (ok tt) (after_withdrawal acc msg)
  disputes :
      (original : InputMessage)
      → acc.locked ≡ false
      → msg.transaction_type ≡ TransactionType.dispute
      → get msg.transaction_id acc.transactions ≡ some (normal, original)
      → Settles acc msg (ok tt) (after_dispute acc msg.transaction_id original.amount)
  resolves :
      (original : InputMessage)
      → acc.locked ≡ false
      → msg.transaction_type ≡ TransactionType.resolve
      → get msg.transaction_id acc.transactions ≡ some (disputed, original)
      → Settles acc msg (ok tt) (after_resolve acc msg.transaction_id original.amount)
  charges_back :
      (original : InputMessage)
      → acc.locked ≡ false
      → msg.transaction_type ≡ TransactionType.chargeback
      → get msg.transaction_id acc.transactions ≡ some (disputed, original)
      → Settles acc msg (ok tt) (after_chargeback acc msg.transaction_id original.amount)
