-- ===== src/Service/Engine.antt =====
-- `impl Service` (src/service/mod.rs): the event loop and its handlers.
use nda_takehome.Base.{
  ℕ, zero, suc, ◌+◌, ⊤, Option, none, some, List, [], ◌∷◌, ◌++◌, ◌==◌, leb, length, if◌then◌else◌,
}
use nda_takehome.Base.Outcome.{Outcome, ok, err, panicked, Build, debug, release}
use nda_takehome.Base.Action.{pure, gets, modify, assert, lift, ◌>>=◌, ◌>>◌}
use nda_takehome.Collections.{HashMap, get, insert}
use nda_takehome.Collections.Heap.{pop, push}
use nda_takehome.Text.{codes}
use nda_takehome.Message.{InputMessage}
use nda_takehome.Domain.Transaction.{ClientId, otel_label}
use nda_takehome.Domain.Account.State.{Account}
use nda_takehome.Domain.Account.State
use nda_takehome.Domain.Account.Check.{check_invariants}
use nda_takehome.Domain.Account.Operations.{process}
use nda_takehome.Service.Error.{TransactionError, to_string}
use nda_takehome.Service.PendingTransaction.{PendingTransaction, Channel, cmp}
use nda_takehome.Service.State.{
  Server, Labels, Sent, ServiceMessage, incoming, transaction_batch_completion, Receivers,
  ServiceError, callback_closed, completion_closed, ServerAction,
}

-- The entry of a client, made on the first message: `entry(…).or_insert_with(…)`.
abbrev pub or_new : ClientId → Option Account → Account
or_new client_id none = State.new client_id
or_new client_id (some acc) = acc

abbrev pub account_or_new : ClientId → HashMap Account → Account
account_or_new client_id accounts = or_new client_id (get client_id accounts)

-- The numbers of processed and failed transactions of a batch.
abbrev pub Counts : Type 0
Counts = ℕ × ℕ

abbrev pub record_labels : Labels → Server → Server
record_labels labels self = record self {
  metrics = record self.metrics {
    service_transactions_processed = self.metrics.service_transactions_processed ++ labels ∷ [];
  };
}

-- `match &res`
unfoldable pub count_result :
    InputMessage → Outcome TransactionError ⊤ → Counts → ServerAction Counts
unfolding otel_label to_string
count_result msg (ok _) (processed, failed) = do
  modify (
      record_labels
        (record { type = otel_label msg.transaction_type; outcome = codes "ok"; error = none }))
  pure (processed + 1, failed)
count_result msg (err e) (processed, failed) = do
  modify (
      record_labels (record {
        type = otel_label msg.transaction_type;
        outcome = codes "error";
        error = some (to_string e);
      }))
  pure (processed, failed + 1)
count_result msg panicked counts = lift panicked

-- A panic of the operation goes on to the caller.
abbrev pub or_panic : Outcome TransactionError ⊤ → Outcome ServiceError (Outcome TransactionError ⊤)
or_panic (ok u) = ok (ok u)
or_panic (err e) = ok (err e)
or_panic panicked = panicked

-- `entry.process_…(msg)`, and the entry written back
unfoldable pub process_entry : Build → InputMessage → ServerAction (Outcome TransactionError ⊤)
process_entry build msg self =
    let (res, entry) = process build msg (account_or_new msg.client_id self.accounts) in
    (or_panic res, record self { accounts = insert msg.client_id entry self.accounts })

-- `check_invariants(&entry)`
unfoldable pub assert_entry : Build → ClientId → ServerAction ⊤
assert_entry debug client_id =
    assert λ self. check_invariants (account_or_new client_id self.accounts)
assert_entry release client_id = pure tt

-- `tx.callback.send(…)`
unfoldable pub send_outcome :
    Receivers → PendingTransaction → Outcome TransactionError ⊤ → ServerAction ⊤
send_outcome receivers tx res self =
    let sent : Sent = record {
      channel = tx.callback;
      client_id = (tx.message).client_id;
      transaction_id = (tx.message).transaction_id;
      result = res;
    } in
    if receivers.callback_open tx.callback self.sent
    then (ok tt, record self { sent = self.sent ++ sent ∷ [] })
    else (err callback_closed, self)

-- One round of the loop in `Service::handle_buffer`.
unfoldable pub process_pending :
    Build → Receivers → PendingTransaction → Counts → ServerAction Counts
process_pending build receivers tx counts = do
  let msg = tx.message
  res ← process_entry build msg
  assert_entry build msg.client_id
  counts' ← count_result msg res counts
  send_outcome receivers tx res
  pure counts'

-- `while let Some(tx) = buffer.pop()`; the fuel is the length of the buffer.
unfoldable pub drain : Build → Receivers → ℕ → Counts → ServerAction Counts
unfolding pop
drain build receivers zero counts self = (ok counts, self)
drain build receivers (suc fuel) counts self = elim (pop cmp self.ordered_messages) [
  | none ↦ (ok counts, self)
  | some (tx, rest) ↦
      (do counts' ← process_pending build receivers tx counts; drain build receivers fuel counts')
        (record self { ordered_messages = rest })
]

abbrev pub start_batch : ℕ → Server → Server
start_batch batch_size self = record self {
  metrics = record self.metrics {
    service_batches_processed = self.metrics.service_batches_processed + 1;
    service_batch_size = self.metrics.service_batch_size ++ batch_size ∷ [];
  };
}

abbrev pub finish_batch : Counts → Server → Server
finish_batch (processed, failed) self = record self {
  metrics = record self.metrics {
    service_batch_durations = self.metrics.service_batch_durations + 1;
    service_batch_transactions_ok = self.metrics.service_batch_transactions_ok + processed;
    service_batch_transactions_failed = self.metrics.service_batch_transactions_failed + failed;
    service_accounts_total = some (length self.accounts);
  };
}

-- `Service::handle_buffer`
unfoldable pub handle_buffer : Build → Receivers → ServerAction ⊤
handle_buffer build receivers = do
  batch_size ← gets (λ self. length self.ordered_messages)
  if batch_size == 0 then pure tt else (do
    modify (start_batch batch_size)
    counts ← drain build receivers batch_size (0, 0)
    modify (finish_batch counts))

-- `callback.send(())` of a completion
unfoldable pub send_completion : Receivers → Channel → ServerAction ⊤
send_completion receivers callback self =
    if receivers.completion_open callback self.sent
    then (ok tt, record self { completed = self.completed ++ callback ∷ [] })
    else (err completion_closed, self)

-- `Service::iteration`
unfoldable pub iteration : Build → Receivers → ServiceMessage → ServerAction ⊤
iteration build receivers (incoming m c) = do
  modify λ self. record self {
    ordered_messages = push (record { message = m; callback = c }) self.ordered_messages;
  }
  full ← gets λ self. leb self.config.batch_size (length self.ordered_messages)
  if full then handle_buffer build receivers else pure tt
iteration build receivers (transaction_batch_completion callback) = do
  handle_buffer build receivers
  send_completion receivers callback

abbrev pub tick : Server → Server
tick self = record self {
  metrics = record self.metrics { service_ticks = self.metrics.service_ticks + 1 };
}

-- The loop of `Service::server_forever` over the messages that it receives before it is cancelled
-- or the channel is closed.
unfoldable pub receive_all : Build → Receivers → List ServiceMessage → ServerAction ⊤
receive_all build receivers [] = pure tt
receive_all build receivers (msg ∷ rx) = do
  modify tick
  iteration build receivers msg
  receive_all build receivers rx

-- `Service::server_forever`
unfoldable pub server_forever : Build → Receivers → List ServiceMessage → ServerAction ⊤
server_forever build receivers rx = do receive_all build receivers rx; handle_buffer build receivers
