-- ===== src/Service/State.antt =====
-- The state of the engine (src/service/mod.rs, src/service/config.rs, src/metrics.rs) and what it
-- asks of the channels that it is given.
use nda_takehome.Base.{ℕ, ⊤, Bool, Option, none, List, []}
use nda_takehome.Base.Outcome.{Outcome}
use nda_takehome.Base.Action.{Action}
use nda_takehome.Collections.{HashMap}
use nda_takehome.Text.{Text}
use nda_takehome.Message.{InputMessage}
use nda_takehome.Domain.Transaction.{ClientId, TransactionId}
use nda_takehome.Domain.Account.State.{Account}
use nda_takehome.Service.Error.{TransactionError}
use nda_takehome.Service.PendingTransaction.{PendingTransaction, Channel}

pub record ServiceConfig : Type 0 where
  pub batch_size : ℕ

-- `Default for ServiceConfig`
abbrev pub default_config : ServiceConfig
default_config = record { batch_size = 10 }

-- The labels of one recording of `service_transactions_processed`.
pub record Labels : Type 0 where
  pub type : Text
  pub outcome : Text
  pub error : Option Text

-- What the engine records in its instruments: a counter is its sum, a histogram its samples. Of
-- the durations only the number of samples is kept.
pub record Metrics : Type 0 where
  pub service_ticks : ℕ
  pub service_batches_processed : ℕ
  pub service_batch_size : List ℕ
  pub service_batch_durations : ℕ
  pub service_transactions_processed : List Labels
  pub service_batch_transactions_ok : ℕ
  pub service_batch_transactions_failed : ℕ
  pub service_accounts_total : Option ℕ

abbrev pub no_metrics : Metrics
no_metrics = record {
  service_ticks = 0;
  service_batches_processed = 0;
  service_batch_size = [];
  service_batch_durations = 0;
  service_transactions_processed = [];
  service_batch_transactions_ok = 0;
  service_batch_transactions_failed = 0;
  service_accounts_total = none;
}

-- What is sent on a callback channel, with the channel.
pub record Sent : Type 0 where
  pub channel : Channel
  pub client_id : ClientId
  pub transaction_id : TransactionId
  pub result : Outcome TransactionError ⊤

-- `Service` and the buffer of `server_forever`, with what has gone out of them so far.
pub record Server : Type 0 where
  pub config : ServiceConfig
  pub accounts : HashMap Account
  pub ordered_messages : List PendingTransaction
  pub sent : List Sent
  pub completed : List Channel
  pub metrics : Metrics

-- `Service::new` and the empty buffer
abbrev pub new : ServiceConfig → Server
new config = record {
  config = config;
  accounts = [];
  ordered_messages = [];
  sent = [];
  completed = [];
  metrics = no_metrics;
}

pub data ServiceMessage : Type 0 where
  incoming : InputMessage → Channel → ServiceMessage
  transaction_batch_completion : Channel → ServiceMessage

-- The receivers at the other ends: whether one is still there, after what has been sent so far.
pub record Receivers : Type 0 where
  pub callback_open : Channel → List Sent → Bool
  pub completion_open : Channel → List Sent → Bool

pub data ServiceError : Type 0 where
  callback_closed completion_closed : ServiceError

abbrev pub ServerAction : Type 0 → Type 0
ServerAction A = Action Server ServiceError A
