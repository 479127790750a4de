-- ===== src/Service/Sequential/Pending.antt =====
-- One message of a batch (src/service/mod.rs), while the receivers are there.
use nda_takehome.Base.{◌+◌, ⊤, true, none, some, List, [], ◌∷◌, ◌++◌, ◌≡◌, ◌≢◌, refl, arith}
use nda_takehome.Base.Outcome.{Outcome, ok, err, panicked, Build, debug, release}
use nda_takehome.Collections.Laws.{get-insert}
use nda_takehome.Text.{codes}
use nda_takehome.Message.{InputMessage}
use nda_takehome.Domain.Transaction.{otel_label}
use nda_takehome.Domain.Account.Invariant.Checks.{check_invariants_lem}
use nda_takehome.Domain.Account.History.Safety.{
  consistent-Settles, Settles-returns, process-IsConsistent,
}
use nda_takehome.Service.Error.{TransactionError, to_string}
use nda_takehome.Service.PendingTransaction.{PendingTransaction, Channel}
use nda_takehome.Service.State.{Server, Labels, Receivers, Sent}
use nda_takehome.Service.Engine.{
  Counts, process_pending, process_entry, assert_entry, count_result, send_outcome, record_labels,
}
use nda_takehome.Service.Sequential.{Accounts, outcome, step_accounts, sent_of}
use nda_takehome.Service.Sequential.Accounts.{AllConsistent, account_or_new-IsConsistent}

-- No receiver is dropped.
abbrev pub AllOpen : Receivers → Type 0
AllOpen receivers =
    ((c : Channel) (sent : List Sent) → receivers.callback_open c sent ≡ true)
    × ((c : Channel) (sent : List Sent) → receivers.completion_open c sent ≡ true)

abbrev pub labels_of : InputMessage → Outcome TransactionError ⊤ → Labels
labels_of msg (err e) = record {
  type = otel_label msg.transaction_type;
  outcome = codes "error";
  error = some (to_string e);
}
labels_of msg (ok _) = record {
  type = otel_label msg.transaction_type;
  outcome = codes "ok";
  error = none;
}
labels_of msg panicked = record {
  type = otel_label msg.transaction_type;
  outcome = [];
  error = none;
}

abbrev pub tally : Outcome TransactionError ⊤ → Counts → Counts
tally (ok _) (processed, failed) = (processed + 1, failed)
tally (err e) (processed, failed) = (processed, failed + 1)
tally panicked counts = counts

-- The engine behind one message.
abbrev pub settled : Build → PendingTransaction → Server → Server
settled build tx self = record self {
  accounts = step_accounts build tx.message self.accounts;
  sent = self.sent ++ sent_of build tx self.accounts ∷ [];
  metrics =
      (record_labels (labels_of tx.message (outcome build tx.message self.accounts).0)
        self).metrics;
}

pub outcome-returns :
    (build : Build) (msg : InputMessage) (accounts : Accounts)
    → AllConsistent accounts
    → (outcome build msg accounts).0 ≢ panicked
outcome-returns build msg accounts c =
    Settles-returns
      (consistent-Settles build msg (account_or_new-IsConsistent msg.client_id accounts c))

pub assert_entry_lem :
    (build : Build) (msg : InputMessage) (self : Server)
    → AllConsistent self.accounts
    → let after = record self { accounts = step_accounts build msg self.accounts } in
      assert_entry build msg.client_id after ≡ (ok tt, after)
unfolding assert_entry
assert_entry_lem debug msg self c = ground (
  arith,
  get-insert msg.client_id msg.client_id (outcome debug msg self.accounts).1 self.accounts,
  check_invariants_lem (outcome debug msg self.accounts).1
      (process-IsConsistent debug msg (account_or_new-IsConsistent msg.client_id self.accounts c)),
)
assert_entry_lem release msg self c = refl

pub process_pending_open :
    (build : Build) (receivers : Receivers) (tx : PendingTransaction) (counts : Counts)
    (self : Server)
    → receivers.callback_open tx.callback self.sent ≡ true
    → AllConsistent self.accounts
    → process_pending build receivers tx counts self
      ≡ (ok (tally (outcome build tx.message self.accounts).0 counts), settled build tx self)
unfolding process_pending process_entry count_result send_outcome
process_pending_open build receivers tx counts self is_open c = ground (
  arith,
  outcome-returns build tx.message self.accounts c,
  assert_entry_lem build tx.message self c,
  is_open,
)

pub process_pending_lem :
    (build : Build) (receivers : Receivers) (tx : PendingTransaction) (counts : Counts)
    (self : Server)
    → AllOpen receivers
    → AllConsistent self.accounts
    → process_pending build receivers tx counts self
      ≡ (ok (tally (outcome build tx.message self.accounts).0 counts), settled build tx self)
process_pending_lem build receivers tx counts self open_ends c =
    process_pending_open build receivers tx counts self (open_ends.0 tx.callback self.sent) c
