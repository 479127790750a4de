-- ===== src/Domain/Account/Operations.antt =====
-- The operations of `impl Account` (src/domain/account.rs).
pub mod Unlocked
use Unlocked.{
  unlocked_deposit, unlocked_withdrawal, unlocked_dispute, unlocked_resolve, unlocked_chargeback,
}
use Unlocked.{AccountAction}
use nda_takehome.Base.Action.{pure, gets, modify, assert, refuse_if, ◌>>=◌, ◌>>◌}
use nda_takehome.Base.{
  ℕ, ⊤, Bool, true, false, not, Option, none, some, List, [], ◌∷◌, ◌++◌, if◌then◌else◌,
}
use nda_takehome.Base.Int.{ltb_ℤ}
use nda_takehome.Base.Outcome.{Outcome, ok, err, panicked, Build, debug, release}
use nda_takehome.Collections.{get, insert, add, contains_key}
use nda_takehome.Domain.Amount.{Amount}
use nda_takehome.Domain.Amount
use nda_takehome.Domain.Transaction.{TransactionId, TransactionType}
use nda_takehome.Message.{InputMessage}
use nda_takehome.Service.Error.{
  TransactionError, insufficient_balance, account_locked, invalid_transaction,
  duplicate_transaction, amount_negative,
}
use nda_takehome.Domain.Account.State.{
  Account, TransactionState, normal, disputed, resolved, chargeback, ExecuteTransition,
  can_transition, execute,
}
use nda_takehome.Domain.Account.Check.{check_invariants}

-- `check_invariants(self)`, whose body a release build leaves out
unfoldable pub assert_invariants : Build → AccountAction ⊤
assert_invariants debug = assert check_invariants
assert_invariants release = pure tt

abbrev pub push_history : Build → InputMessage → Account → Account
push_history debug msg acc = record acc { history_changes = acc.history_changes ++ msg ∷ [] }
push_history release msg acc = acc

-- `Account::shared_prestep`
unfoldable pub shared_prestep : Build → InputMessage → AccountAction ⊤
unfolding assert_invariants
shared_prestep build msg = do
  assert_invariants build
  modify (push_history build msg)
  refuse_if (← gets (λ self. self.locked)) account_locked

-- `Account::process_deposit`
unfoldable pub process_deposit : Build → InputMessage → AccountAction ⊤
unfolding unlocked_deposit
process_deposit build msg = do shared_prestep build msg; unlocked_deposit msg

-- `Account::process_withdrawal`
unfoldable pub process_withdrawal : Build → InputMessage → AccountAction ⊤
unfolding unlocked_withdrawal
process_withdrawal build msg = do shared_prestep build msg; unlocked_withdrawal msg

-- `Account::process_dispute`
unfoldable pub process_dispute : Build → InputMessage → AccountAction ⊤
unfolding unlocked_dispute
process_dispute build msg = do shared_prestep build msg; unlocked_dispute msg.transaction_id

-- `Account::process_resolve`
unfoldable pub process_resolve : Build → InputMessage → AccountAction ⊤
unfolding unlocked_resolve
process_resolve build msg = do shared_prestep build msg; unlocked_resolve msg.transaction_id

-- `Account::process_chargeback`
unfoldable pub process_chargeback : Build → InputMessage → AccountAction ⊤
unfolding unlocked_chargeback
process_chargeback build msg = do shared_prestep build msg; unlocked_chargeback msg.transaction_id

abbrev pub dispatch : TransactionType → Build → InputMessage → AccountAction ⊤
dispatch TransactionType.deposit = process_deposit
dispatch TransactionType.withdrawal = process_withdrawal
dispatch TransactionType.dispute = process_dispute
dispatch TransactionType.resolve = process_resolve
dispatch TransactionType.chargeback = process_chargeback

-- The `match` on the transaction type in `Service::handle_buffer`.
unfoldable pub process : Build → InputMessage → AccountAction ⊤
process build msg = dispatch msg.transaction_type build msg
