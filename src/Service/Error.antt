-- ===== src/Service/Error.antt =====
-- src/service/error.rs
use nda_takehome.Text.{Text, codes}

pub data TransactionError : Type 0 where
  insufficient_balance account_locked transaction_not_disputed : TransactionError
  invalid_transaction duplicate_transaction cannot_revert_to_normal : TransactionError
  amount_negative transaction_terminal_state already_disputed : TransactionError

-- The texts of `#[error(…)]`.
unfoldable pub to_string : TransactionError → Text
to_string insufficient_balance = codes "Unable to withdraw due to insufficient balance"
to_string account_locked = codes "The account is locked"
to_string transaction_not_disputed = codes "Transaction is not disputed"
to_string invalid_transaction = codes "Unable to resolve the transaction"
to_string duplicate_transaction =
    codes "Cannot add the transaction because it has already been added"
to_string cannot_revert_to_normal = codes "Unable to revert to a normal state"
to_string amount_negative = codes "Cannot accept transaction because the amount is negative"
to_string transaction_terminal_state = codes "Transaction is already in a terminal state"
to_string already_disputed = codes "Cannot dispute an already disputed transaction"
