-- ===== src/Service/Sequential/Closed.antt =====
-- A message of a batch whose receiver is gone (src/service/mod.rs).
use nda_takehome.Base.{ℕ, suc, false, ◌∷◌, List, ◌≡◌, arith, ap}
use nda_takehome.Base.Outcome.{err, Build}
use nda_takehome.Base.Action.{◌>>=◌}
use nda_takehome.Collections.Heap.{select}
use nda_takehome.Service.PendingTransaction.{PendingTransaction, cmp}
use nda_takehome.Service.State.{Server, Receivers, callback_closed}
use nda_takehome.Service.Engine.{
  Counts, process_pending, process_entry, count_result, send_outcome, drain, record_labels,
}
use nda_takehome.Service.Sequential.{outcome, step_accounts}
use nda_takehome.Service.Sequential.Accounts.{AllConsistent}
use nda_takehome.Service.Sequential.Pending.{assert_entry_lem, outcome-returns, labels_of}

-- The engine behind a message that is processed and not reported.
abbrev pub unreported : Build → PendingTransaction → Server → Server
unreported build tx self = record self {
  accounts = step_accounts build tx.message self.accounts;
  metrics =
      (record_labels (labels_of tx.message (outcome build tx.message self.accounts).0)
        self).metrics;
}

pub process_pending_closed :
    (build : Build) (receivers : Receivers) (tx : PendingTransaction) (counts : Counts)
    (self : Server)
    → receivers.callback_open tx.callback self.sent ≡ false
    → AllConsistent self.accounts
    → process_pending build receivers tx counts self
      ≡ (err callback_closed, unreported build tx self)
unfolding process_pending process_entry count_result send_outcome
process_pending_closed build receivers tx counts self closed c = ground (
  arith,
  outcome-returns build tx.message self.accounts c,
  assert_entry_lem build tx.message self c,
  closed,
)

-- When the receiver of the message that comes first out of the buffer is gone, the batch ends with
-- an error: that message has been processed all the same and its account changed, nothing has been
-- sent, and all other messages stay in the buffer. Every account is consistent before.
pub drain_closed :
    (build : Build) (receivers : Receivers) (fuel : ℕ) (x : PendingTransaction)
    (xs : List PendingTransaction) (counts : Counts) (self : Server)
    → receivers.callback_open (select cmp x xs).0.callback self.sent ≡ false
    → AllConsistent self.accounts
    → drain build receivers (suc fuel) counts (record self { ordered_messages = x ∷ xs }) ≡ (
      err callback_closed,
      unreported build (select cmp x xs).0 (record self { ordered_messages = (select cmp x xs).1 }),
    )
unfolding drain
drain_closed build receivers fuel x xs counts self closed c =
    let (tx, rest) = select cmp x xs in
    let start : Server = record self { ordered_messages = rest } in
    ap (λ p. ((λ (_ : Server). p) >>= λ counts'. drain build receivers fuel counts') start)
      (process_pending_closed build receivers tx counts start closed c)
