-- ===== src/Service/Sequential/Arrival.antt =====
-- The order in which the messages of a batch arrive (src/service/mod.rs).
use nda_takehome.Base.{◌≡◌, ap, ◌∙◌, List, ◌++◌}
use mathlib.Core.List.{Perm}
use nda_takehome.Base.Outcome.{Build}
use nda_takehome.Collections.Heap.Arrival.{pop_all_arrival}
use nda_takehome.Message.{InputMessage}
use nda_takehome.Service.PendingTransaction.{PendingTransaction, cmp, cmp-IsOrder}
use nda_takehome.Service.State.{Server, Receivers}
use nda_takehome.Service.Engine.{handle_buffer}
use nda_takehome.Service.Sequential.{run_accounts, run_sent}
use nda_takehome.Service.Sequential.Accounts.{AllConsistent}
use nda_takehome.Service.Sequential.Pending.{AllOpen}
use nda_takehome.Service.Sequential.Batch.{in_order, handle_buffer_lem}
use nda_takehome.Service.Sequential.Outlook.{InOrder}

InputMessage-set : IsSet InputMessage
InputMessage-set = hlevel

PendingTransaction-set : IsSet PendingTransaction
PendingTransaction-set = hlevel (InputMessage-set)

-- While the receivers stay and every account is consistent, a batch processes the messages of its
-- buffer oldest first, in whatever order they arrived: for a buffer that holds the messages `txs`, of
-- which each is older than those behind it, the accounts and the outcomes sent are those of the
-- sequential run over `txs`.
pub handle_buffer_arrival :
    (build : Build) (receivers : Receivers) (all_open : AllOpen receivers) (self : Server)
    (txs : List PendingTransaction)
    → AllConsistent self.accounts
    → InOrder txs
    → Perm txs self.ordered_messages
    → let self' = (handle_buffer build receivers self).1 in
      (self'.accounts ≡ run_accounts build txs self.accounts)
      × (self'.sent ≡ self.sent ++ run_sent build txs self.accounts)
handle_buffer_arrival build receivers all_open self txs c strict p =
    let flushes = (handle_buffer_lem build receivers all_open self c).1 in
    let sorted : in_order self.ordered_messages ≡ txs =
      pop_all_arrival PendingTransaction-set cmp cmp-IsOrder txs self.ordered_messages p strict in
    (
      flushes.accounts ∙ ap (λ l. run_accounts build l self.accounts) sorted,
      flushes.sent ∙ ap (λ l. self.sent ++ run_sent build l self.accounts) sorted,
    )
