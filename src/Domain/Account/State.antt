-- ===== src/Domain/Account/State.antt =====
-- The account, the life cycle of a transaction and its transitions (src/domain/account.rs).
use nda_takehome.Base.{Bool, false, List, []}
use nda_takehome.Base.Outcome.{Outcome, ok, err}
use nda_takehome.Collections.{HashMap, HashSet, modify_at, add, remove}
use nda_takehome.Domain.Amount.{Amount}
use nda_takehome.Domain.Amount
use nda_takehome.Domain.Transaction.{ClientId, TransactionId}
use nda_takehome.Message.{InputMessage}
use nda_takehome.Service.Error.{
  TransactionError, account_locked, transaction_not_disputed, cannot_revert_to_normal,
  transaction_terminal_state, already_disputed,
}

pub data TransactionState : Type 0 where
  normal disputed resolved chargeback : TransactionState

pub record Account : Type 0 where
  pub client_id : ClientId
  pub available : Amount
  pub held : Amount
  pub total : Amount
  pub locked : Bool
  pub transactions : HashMap (TransactionState × InputMessage)
  pub normal : HashSet
  pub disputes : HashSet
  pub resolves : HashSet
  pub chargebacks : HashSet
  -- in debug builds only
  pub history_changes : List InputMessage

-- `Account::new`
abbrev pub new : ClientId → Account
new client_id = record {
  client_id = client_id;
  available = Amount.zero;
  held = Amount.zero;
  total = Amount.zero;
  locked = false;
  transactions = [];
  normal = [];
  disputes = [];
  resolves = [];
  chargebacks = [];
  history_changes = [];
}

pub record ExecuteTransition : Type 0 where
  pub from : TransactionState
  pub to : TransactionState

-- `TransactionState::can_transition`: the arms of the `match`, in their order.
unfoldable pub can_transition :
    TransactionState → TransactionState → Outcome TransactionError ExecuteTransition
can_transition _ normal = err cannot_revert_to_normal
can_transition chargeback _ = err account_locked
can_transition resolved _ = err transaction_terminal_state
can_transition disputed disputed = err already_disputed
can_transition normal disputed = ok (record { from = normal; to = disputed })
can_transition disputed resolved = ok (record { from = disputed; to = resolved })
can_transition disputed chargeback = ok (record { from = disputed; to = chargeback })
can_transition normal resolved = err transaction_not_disputed
can_transition normal chargeback = err transaction_not_disputed

abbrev remove_from : TransactionState → TransactionId → Account → Account
remove_from normal key acc = record acc { normal = remove key acc.normal }
remove_from disputed key acc = record acc { disputes = remove key acc.disputes }
remove_from resolved key acc = record acc { resolves = remove key acc.resolves }
remove_from chargeback key acc = record acc { chargebacks = remove key acc.chargebacks }

abbrev insert_into : TransactionState → TransactionId → Account → Account
insert_into normal key acc = record acc { normal = add key acc.normal }
insert_into disputed key acc = record acc { disputes = add key acc.disputes }
insert_into resolved key acc = record acc { resolves = add key acc.resolves }
insert_into chargeback key acc = record acc { chargebacks = add key acc.chargebacks }

abbrev pub set_state :
    TransactionState → TransactionState × InputMessage → TransactionState × InputMessage
set_state to (_, msg) = (to, msg)

-- `ExecuteTransition::execute`
unfoldable pub execute : ExecuteTransition → TransactionId → Account → Account
execute self key acc =
    let left = remove_from self.from key acc in
    let entered = insert_into self.to key left in
    record entered { transactions = modify_at key (set_state self.to) entered.transactions }
