-- ===== src/Service/Sequential.antt =====
-- What the engine is to compute, with no buffer, no batches and no channels: the messages are
-- processed one after the other.
pub mod Accounts
pub mod Pending
pub mod Batch
pub mod Outlook
pub mod Server
pub mod Isolation
pub mod Arrival
pub mod Closed
pub mod Once
pub mod Serving
use nda_takehome.Base.{ℕ, ⊤, List, [], ◌∷◌, ◌+◌}
use nda_takehome.Base.Outcome.{Outcome, ok, err, panicked, Build}
use nda_takehome.Collections.{HashMap, insert}
use nda_takehome.Message.{InputMessage}
use nda_takehome.Domain.Account.State.{Account}
use nda_takehome.Domain.Account.Operations.{process}
use nda_takehome.Service.Error.{TransactionError}
use nda_takehome.Service.PendingTransaction.{PendingTransaction}
use nda_takehome.Service.State.{Sent}
use nda_takehome.Service.Engine.{account_or_new}

abbrev pub Accounts : Type 0
Accounts = HashMap Account

-- The result of a message and the account behind it.
abbrev pub outcome : Build → InputMessage → Accounts → Outcome TransactionError ⊤ × Account
outcome build msg accounts = process build msg (account_or_new msg.client_id accounts)

abbrev pub step_accounts : Build → InputMessage → Accounts → Accounts
step_accounts build msg accounts = insert msg.client_id (outcome build msg accounts).1 accounts

abbrev pub sent_of : Build → PendingTransaction → Accounts → Sent
sent_of build tx accounts = record {
  channel = tx.callback;
  client_id = (tx.message).client_id;
  transaction_id = (tx.message).transaction_id;
  result = (outcome build tx.message accounts).0;
}

-- The accounts after all messages, and the outcomes that are sent.
unfoldable pub run_accounts : Build → List PendingTransaction → Accounts → Accounts
run_accounts build [] accounts = accounts
run_accounts build (tx ∷ txs) accounts =
    run_accounts build txs (step_accounts build tx.message accounts)

unfoldable pub run_sent : Build → List PendingTransaction → Accounts → List Sent
run_sent build [] accounts = []
run_sent build (tx ∷ txs) accounts =
    sent_of build tx accounts ∷ run_sent build txs (step_accounts build tx.message accounts)
