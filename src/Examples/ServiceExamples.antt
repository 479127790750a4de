-- ===== src/Examples/ServiceExamples.antt =====
-- The theorems on the service and its messages, at small buffers.
use nda_takehome.Base.{false, ◌≡◌, ◌↔◌, ◌++◌, [], ◌∷◌, List, none, refl, Ordering}
use mathlib.Core.List.Perm
use nda_takehome.Base.Outcome.{err, release, ok}
use nda_takehome.Collections.{HashMap, get}
use nda_takehome.Message.{cmp}
use nda_takehome.Message.Order.{cmp_iff, IsOlder, SameKeys}
use nda_takehome.Message.Output.{Field}
use nda_takehome.Domain.Account.State.{Account, new}
use nda_takehome.Infrastructure.CsvWriter.{Serializer}
use nda_takehome.Service.PendingTransaction.{PendingTransaction}
use nda_takehome.Service.PendingTransaction
use nda_takehome.Service.State.{
  Receivers, callback_closed, Server, incoming, transaction_batch_completion, default_config,
  ServiceMessage,
}
use nda_takehome.Service.State
use nda_takehome.Service.Engine.{drain, handle_buffer, server_forever}
use nda_takehome.Service.Sequential.{run_accounts, run_sent}
use nda_takehome.Service.Sequential.Accounts.{none-AllConsistent}
use nda_takehome.Service.Sequential.Batch.{Flushes, handle_buffer_lem}
use nda_takehome.Service.Sequential.Outlook.{InOrder}
use nda_takehome.Service.Sequential.Server.{server_forever_lem}
use nda_takehome.Service.Sequential.Isolation.{server_forever-of_client}
use nda_takehome.Service.Sequential.Arrival.{handle_buffer_arrival}
use nda_takehome.Collections.Heap.{select}
use nda_takehome.Service.Sequential.Closed.{unreported, drain_closed}
use nda_takehome.Service.Snapshot.{Snapshot}
use nda_takehome.Examples.{pay_in, pay_out, other_client, frozen_account, pending, open_ends}

abbrev pub in_order_messages : List PendingTransaction
in_order_messages = pending pay_in ∷ pending pay_out ∷ pending other_client ∷ []

-- The service with the messages in its buffer, the later ones first.
abbrev pub filled : Server
filled = record (State.new default_config) {
  ordered_messages = pending pay_out ∷ pending pay_in ∷ pending other_client ∷ [];
}

handle_buffer_lem_example :
    ((handle_buffer release open_ends filled).0 ≡ ok tt)
    × Flushes release filled (handle_buffer release open_ends filled).1
handle_buffer_lem_example =
    handle_buffer_lem release open_ends (λ c sent. refl, λ c sent. refl) filled none-AllConsistent

pub messages-InOrder : InOrder in_order_messages
unfolding PendingTransaction.cmp cmp
messages-InOrder = ((refl, (refl, tt)), ((refl, tt), (tt, tt)))

handle_buffer_arrival_example :
    let self' = (handle_buffer release open_ends filled).1 in
    (self'.accounts ≡ run_accounts release in_order_messages [])
    × (self'.sent ≡ [] ++ run_sent release in_order_messages [])
handle_buffer_arrival_example =
    handle_buffer_arrival release open_ends (λ c sent. refl, λ c sent. refl) filled
      in_order_messages none-AllConsistent messages-InOrder
      (Perm.swap (pending pay_out) (pending pay_in) (pending other_client ∷ []))

abbrev pub received : List ServiceMessage
received =
    incoming pay_in 7
    ∷ incoming pay_out 7
    ∷ incoming other_client 7
    ∷ transaction_batch_completion 8
    ∷ []

server_forever_lem_example :
    let (result, self) = server_forever release open_ends received (State.new default_config) in
    (result ≡ ok tt)
    × (self.ordered_messages ≡ [])
    × (self.accounts ≡ run_accounts release in_order_messages [])
    × (self.sent ≡ run_sent release in_order_messages [])
    × (self.completed ≡ 8 ∷ [])
server_forever_lem_example =
    server_forever_lem release open_ends (λ c sent. refl, λ c sent. refl) default_config received
      messages-InOrder

server_forever-of_client_example :
    get 2 (server_forever release open_ends received (State.new default_config)).1.accounts
    ≡ get 2 (run_accounts release (pending other_client ∷ []) [])
server_forever-of_client_example =
    server_forever-of_client release open_ends (λ c sent. refl, λ c sent. refl) default_config
      received 2 messages-InOrder

-- A serializer that keeps the records.
abbrev pub keeping : Serializer (List (List Field))
keeping = record { serialize = λ fields w. (ok tt, w ++ fields ∷ []); flush = λ w. (ok tt, w) }

abbrev pub nothing_written : Snapshot (List (List Field))
nothing_written = record {
  writer = [];
  snapshot_accounts_written = none;
  snapshot_accounts_locked = none;
}

abbrev pub two_accounts : HashMap Account
two_accounts = (1, frozen_account) ∷ (2, new 2) ∷ []

cmp_iff_example :
    ((cmp pay_in pay_out ≡ Ordering.gt) ↔ IsOlder pay_in pay_out)
    × ((cmp pay_in pay_out ≡ Ordering.lt) ↔ IsOlder pay_out pay_in)
    × ((cmp pay_in pay_out ≡ Ordering.eq) ↔ SameKeys pay_in pay_out)
cmp_iff_example = cmp_iff pay_in pay_out

-- Receivers that are gone.
abbrev pub closed_ends : Receivers
closed_ends = record { callback_open = λ c sent. false; completion_open = λ c sent. false }

drain_closed_example :
    let (tx, rest) =
      select PendingTransaction.cmp
        (pending pay_out)
        (pending pay_in ∷ pending other_client ∷ []) in
    drain release closed_ends 3 (0, 0) filled ≡ (
      err callback_closed,
      unreported release tx (record (State.new default_config) { ordered_messages = rest }),
    )
drain_closed_example =
    drain_closed release closed_ends 2 (pending pay_out)
      (pending pay_in ∷ pending other_client ∷ []) (0, 0) (State.new default_config) refl
      none-AllConsistent
