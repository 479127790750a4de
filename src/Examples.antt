-- ===== src/Examples.antt =====
-- Concrete runs of the engine on a small file, and the theorems at them.
mod AccountExamples
pub mod ServiceExamples
pub mod PipelineExamples
mod AmountExamples
mod SafetyExamples
mod TaskExamples
mod QuintExamples
mod MetricsExamples
use nda_takehome.Base.{List, [], ◌∷◌, true}
use nda_takehome.Base.Int.{pos}
use nda_takehome.Base.Outcome.{Build, release}
use nda_takehome.Message.{InputMessage}
use nda_takehome.Domain.Amount.{Amount}
use nda_takehome.Domain.Transaction.{TransactionType, deposit, withdrawal, dispute, chargeback}
use nda_takehome.Domain.Account.State.{Account, new}
use nda_takehome.Domain.Account.Operations.{process}
use nda_takehome.Domain.Account.History.{Reachable, created, processed}
use nda_takehome.Service.PendingTransaction.{PendingTransaction}
use nda_takehome.Service.State.{Receivers}
use nda_takehome.Service.Sequential.Pending.{AllOpen}

abbrev pub pay_in : InputMessage
pay_in = record {
  chrono_order = 0;
  transaction_type = deposit;
  client_id = 1;
  transaction_id = 1;
  amount = pos 50000;
}

abbrev pub pay_out : InputMessage
pay_out = record {
  chrono_order = 1;
  transaction_type = withdrawal;
  client_id = 1;
  transaction_id = 2;
  amount = pos 20000;
}

abbrev pub contest : InputMessage
contest = record {
  chrono_order = 2;
  transaction_type = dispute;
  client_id = 1;
  transaction_id = 1;
  amount = pos 0;
}

abbrev pub take_back : InputMessage
take_back = record {
  chrono_order = 3;
  transaction_type = chargeback;
  client_id = 1;
  transaction_id = 1;
  amount = pos 0;
}

abbrev pub other_client : InputMessage
other_client = record {
  chrono_order = 4;
  transaction_type = deposit;
  client_id = 2;
  transaction_id = 3;
  amount = pos 10000;
}

-- The account after the first messages.
abbrev pub paid : Account
paid = (process release pay_out (process release pay_in (new 1)).1).1

abbrev pub contested : Account
contested = (process release contest paid).1

abbrev pub frozen_account : Account
frozen_account = (process release take_back contested).1

abbrev pub paid_reached : Reachable release 1 paid
paid_reached = processed (processed created pay_in) pay_out

abbrev pub contested_reached : Reachable release 1 contested
contested_reached = processed paid_reached contest

abbrev pub frozen_reached : Reachable release 1 frozen_account
frozen_reached = processed contested_reached take_back

abbrev pub pending : InputMessage → PendingTransaction
pending msg = record { message = msg; callback = 7 }

-- Receivers that stay.
abbrev pub open_ends : Receivers
open_ends = record { callback_open = λ c sent. true; completion_open = λ c sent. true }
