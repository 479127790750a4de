-- ===== src/Domain/Account/History/Conservation.antt =====
-- Where the total comes from (src/domain/account.rs).
use nda_takehome.Base.{⊤, none, some, ◌≡◌, refl, sym, ap, ◌∙◌}
use nda_takehome.Base.Int.{pos, ◌+ℤ◌, ◌-ℤ◌, int_laws, pos_part, neg_part}
use nda_takehome.Base.Outcome.{Outcome, Build, debug, release}
use nda_takehome.Collections.{get, insert, modify_at}
use nda_takehome.Collections.Sums.{
  sum_by, sum_by-insert_new, sum_by-modify_at, sum_by-modify_at_same,
}
use nda_takehome.Domain.Amount.{Amount}
use nda_takehome.Domain.Transaction.{ClientId, TransactionId, TransactionType}
use nda_takehome.Message.{InputMessage}
use nda_takehome.Service.Error.{TransactionError}
use nda_takehome.Domain.Account.State.{
  Account, TransactionState, normal, disputed, resolved, chargeback, set_state,
}
use nda_takehome.Domain.Account.Operations.{push_history}
use nda_takehome.Domain.Account.Settlement.{
  Settles, refused, deposits, withdraws, disputes, resolves, charges_back,
}
use nda_takehome.Domain.Account.Invariant.Tracking.{Transactions}
use nda_takehome.Domain.Account.History.{Reachable, created, processed}
use nda_takehome.Domain.Account.History.Safety.{consistent-Settles, Reachable-IsConsistent}

abbrev Entry : Type 0
Entry = TransactionState × InputMessage

abbrev if_type : TransactionType → TransactionType → Amount → Amount
if_type TransactionType.deposit TransactionType.deposit amount = amount
if_type TransactionType.withdrawal TransactionType.withdrawal amount = amount
if_type _ _ amount = pos 0

-- What an entry has brought in, taken out, and taken out again by a chargeback.
abbrev pub deposited_of : Entry → Amount
deposited_of (_, msg) = if_type TransactionType.deposit msg.transaction_type msg.amount

abbrev pub withdrawn_of : Entry → Amount
withdrawn_of (_, msg) = if_type TransactionType.withdrawal msg.transaction_type msg.amount

abbrev pub charged_back_of : Entry → Amount
charged_back_of (chargeback, msg) = msg.amount
charged_back_of (normal, msg) = pos 0
charged_back_of (disputed, msg) = pos 0
charged_back_of (resolved, msg) = pos 0

abbrev pub net_flow : Transactions → Amount
net_flow m = sum_by deposited_of m -ℤ sum_by withdrawn_of m -ℤ sum_by charged_back_of m

module _ (msg : InputMessage) (m : Transactions) (new_key : get msg.transaction_id m ≡ none) where
  record_deposit :
      msg.transaction_type ≡ TransactionType.deposit
      → net_flow (insert msg.transaction_id (normal, msg) m) ≡ net_flow m +ℤ msg.amount
  record_deposit t =
      rw
        (
          sum_by-insert_new deposited_of msg.transaction_id (normal, msg) m new_key,
          sum_by-insert_new withdrawn_of msg.transaction_id (normal, msg) m new_key,
          sum_by-insert_new charged_back_of msg.transaction_id (normal, msg) m new_key,
          t,
        )
        (omega int_laws)

  record_withdrawal :
      msg.transaction_type ≡ TransactionType.withdrawal
      → net_flow (insert msg.transaction_id (normal, msg) m) ≡ net_flow m -ℤ msg.amount
  record_withdrawal t =
      rw
        (
          sum_by-insert_new deposited_of msg.transaction_id (normal, msg) m new_key,
          sum_by-insert_new withdrawn_of msg.transaction_id (normal, msg) m new_key,
          sum_by-insert_new charged_back_of msg.transaction_id (normal, msg) m new_key,
          t,
        )
        (omega int_laws)

module _ (k : TransactionId) (msg : InputMessage) (m : Transactions) where
  charges_back-net_flow :
      get k m ≡ some (disputed, msg)
      → net_flow (modify_at k (set_state chargeback) m) ≡ net_flow m -ℤ msg.amount
  charges_back-net_flow e =
      let charged = sum_by-modify_at charged_back_of k (set_state chargeback) (disputed, msg) m e in
      rw
        (
          sum_by-modify_at_same deposited_of k (set_state chargeback) (disputed, msg) m e refl,
          sum_by-modify_at_same withdrawn_of k (set_state chargeback) (disputed, msg) m e refl,
        )
        (omega (int_laws, ap pos_part charged, ap neg_part charged))

  moves-net_flow :
      (from to : TransactionState)
      → charged_back_of (to, msg) ≡ charged_back_of (from, msg)
      → get k m ≡ some (from, msg)
      → net_flow (modify_at k (set_state to) m) ≡ net_flow m
  moves-net_flow from to same e =
      rw
        (
          sum_by-modify_at_same deposited_of k (set_state to) (from, msg) m e refl,
          sum_by-modify_at_same withdrawn_of k (set_state to) (from, msg) m e refl,
          sum_by-modify_at_same charged_back_of k (set_state to) (from, msg) m e same,
        )
        refl

Settles-net_flow :
    {acc : Account} {msg : InputMessage} {r : Outcome TransactionError ⊤} {acc' : Account}
    → Settles acc msg r acc'
    → acc.total ≡ net_flow acc.transactions
    → acc'.total ≡ net_flow acc'.transactions
Settles-net_flow (refused why) h = h
Settles-net_flow {acc} {msg} (deposits u t p e) h =
    ap (λ x. x +ℤ msg.amount) h ∙ sym (record_deposit msg acc.transactions e t)
Settles-net_flow {acc} {msg} (withdraws u t p e n) h =
    ap (λ x. x -ℤ msg.amount) h ∙ sym (record_withdrawal msg acc.transactions e t)
Settles-net_flow {acc} {msg} (disputes m u t e) h =
    h ∙ sym (moves-net_flow msg.transaction_id m acc.transactions normal disputed refl e)
Settles-net_flow {acc} {msg} (resolves m u t e) h =
    h ∙ sym (moves-net_flow msg.transaction_id m acc.transactions disputed resolved refl e)
Settles-net_flow {acc} {msg} (charges_back m u t e) h =
    ap (λ x. x -ℤ m.amount) h ∙ sym (charges_back-net_flow msg.transaction_id m acc.transactions e)

push_history-net_flow :
    (build : Build) (msg : InputMessage) (acc : Account)
    → acc.total ≡ net_flow acc.transactions
    → (push_history build msg acc).total ≡ net_flow (push_history build msg acc).transactions
push_history-net_flow debug msg acc h = h
push_history-net_flow release msg acc h = h

-- No money appears or vanishes: the total of a reachable account is the sum of the recorded
-- deposits, less the recorded withdrawals, less the amounts of the transactions that were charged
-- back (a withdrawal that is charged back is taken out a second time).
pub Reachable-net_flow :
    (build : Build) (client_id : ClientId) (acc : Account)
    → Reachable build client_id acc
    → acc.total ≡ net_flow acc.transactions
Reachable-net_flow build client_id _ created = omega int_laws
Reachable-net_flow build client_id _ (processed {acc} r msg) =
    Settles-net_flow (consistent-Settles build msg (Reachable-IsConsistent r))
      (push_history-net_flow build msg acc (Reachable-net_flow build client_id acc r))
