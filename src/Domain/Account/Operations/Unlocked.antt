-- ===== src/Domain/Account/Operations/Unlocked.antt =====
-- What each operation of src/domain/account.rs does behind its shared step.
use nda_takehome.Base.{⊤, not, true}
use nda_takehome.Base.Int.{ltb_ℤ}
use nda_takehome.Collections.{get, insert, add, contains_key}
use nda_takehome.Domain.Amount.{Amount}
use nda_takehome.Domain.Amount
use nda_takehome.Domain.Transaction.{TransactionId}
use nda_takehome.Message.{InputMessage}
use nda_takehome.Service.Error.{
  TransactionError, insufficient_balance, invalid_transaction, duplicate_transaction,
  amount_negative,
}
use nda_takehome.Domain.Account.State.{
  Account, TransactionState, normal, disputed, resolved, chargeback, ExecuteTransition,
  can_transition, execute,
}
use nda_takehome.Base.Action.{Action, pure, gets, modify, refuse_if, lift, or_fail, ◌>>=◌, ◌>>◌}

abbrev pub AccountAction : Type 0 → Type 0
AccountAction A = Action Account TransactionError A

-- `Account::do_transition`
unfoldable pub do_transition : TransactionId → TransactionState → AccountAction ExecuteTransition
unfolding can_transition
do_transition tx_id target = do
  entry ← or_fail (← gets (λ self. get tx_id self.transactions)) invalid_transaction
  lift (can_transition entry.0 target)

-- `self.transactions.get(&key).ok_or(…)?.1.amount`
unfoldable pub stored_amount : TransactionId → AccountAction Amount
stored_amount key = do
  entry ← or_fail (← gets (λ self. get key self.transactions)) invalid_transaction
  pure (entry.1).amount

unfoldable pub unlocked_deposit : InputMessage → AccountAction ⊤
unlocked_deposit msg = do
  refuse_if (not (Amount.is_positive msg.amount)) amount_negative
  refuse_if (← gets (λ self. contains_key msg.transaction_id self.transactions))
      duplicate_transaction
  modify λ self. record self {
    transactions = insert msg.transaction_id (normal, msg) self.transactions;
  }
  modify λ self. record self { normal = add msg.transaction_id self.normal }
  modify λ self. record self { available = Amount.add_assign self.available msg.amount }
  modify λ self. record self { total = Amount.add_assign self.total msg.amount }

unfoldable pub unlocked_withdrawal : InputMessage → AccountAction ⊤
unlocked_withdrawal msg = do
  refuse_if (not (Amount.is_positive msg.amount)) amount_negative
  refuse_if (← gets (λ self. contains_key msg.transaction_id self.transactions))
      duplicate_transaction
  refuse_if (← gets (λ self. ltb_ℤ self.available msg.amount)) insufficient_balance
  modify λ self. record self {
    transactions = insert msg.transaction_id (normal, msg) self.transactions;
  }
  modify λ self. record self { normal = add msg.transaction_id self.normal }
  modify λ self. record self { available = Amount.sub_assign self.available msg.amount }
  modify λ self. record self { total = Amount.sub_assign self.total msg.amount }

unfoldable pub unlocked_dispute : TransactionId → AccountAction ⊤
unfolding do_transition stored_amount execute
unlocked_dispute key = do
  transition ← do_transition key disputed
  disputed_amount ← stored_amount key
  modify λ self. record self { available = Amount.sub_assign self.available disputed_amount }
  modify λ self. record self { held = Amount.add_assign self.held disputed_amount }
  modify (execute transition key)

unfoldable pub unlocked_resolve : TransactionId → AccountAction ⊤
unfolding do_transition stored_amount execute
unlocked_resolve key = do
  transition ← do_transition key resolved
  resolve_amount ← stored_amount key
  modify λ self. record self { held = Amount.sub_assign self.held resolve_amount }
  modify λ self. record self { available = Amount.add_assign self.available resolve_amount }
  modify (execute transition key)

unfoldable pub unlocked_chargeback : TransactionId → AccountAction ⊤
unfolding do_transition stored_amount execute
unlocked_chargeback key = do
  transition ← do_transition key chargeback
  chargeback_amount ← stored_amount key
  modify λ self. record self { held = Amount.sub_assign self.held chargeback_amount }
  modify λ self. record self { total = Amount.sub_assign self.total chargeback_amount }
  modify λ self. record self { locked = true }
  modify (execute transition key)
