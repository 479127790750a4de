-- ===== src/Domain/Account/Check.antt =====
-- `check_invariants` (src/domain/account.rs): whether every assertion passes. The messages of the
-- assertions are not modelled.
use nda_takehome.Base.{
  ℕ, ◌+◌, Bool, true, false, not, ◌&&◌, ◌||◌, Option, none, some, ◌==◌, foldl, length, is_empty,
  all, if◌then◌else◌,
}
use nda_takehome.Base.Int.{leb_ℤ, eq_ℤ}
use nda_takehome.Collections.{
  HashMap, HashSet, get, contains_key, all_entries, contains, is_disjoint,
}
use nda_takehome.Domain.Amount.{Amount}
use nda_takehome.Domain.Amount
use nda_takehome.Domain.Transaction.{TransactionId}
use nda_takehome.Message.{InputMessage}
use nda_takehome.Domain.Account.State.{
  Account, TransactionState, normal, disputed, resolved, chargeback,
}

-- `bool as u8`
abbrev pub as_u8 : Bool → ℕ
as_u8 true = 1
as_u8 false = 0

-- The set that a state's transactions are in.
abbrev pub set_of : TransactionState → Account → HashSet
set_of normal acc = acc.normal
set_of disputed acc = acc.disputes
set_of resolved acc = acc.resolves
set_of chargeback acc = acc.chargebacks

unfoldable pub balances_hold : Account → Bool
balances_hold account =
    (leb_ℤ Amount.zero account.total || account.locked)
    && eq_ℤ account.total (Amount.add account.available account.held)

-- One round of the loop over the transactions map.
unfoldable pub in_one_set : Account → TransactionId → TransactionState × InputMessage → Bool
in_one_set account tx_id (state, _) =
    let in_normal = contains tx_id account.normal in
    let in_disputes = contains tx_id account.disputes in
    let in_resolves = contains tx_id account.resolves in
    let in_chargebacks = contains tx_id account.chargebacks in
    let count = as_u8 in_normal + as_u8 in_disputes + as_u8 in_resolves + as_u8 in_chargebacks in
    (count == 1) && contains tx_id (set_of state account)

abbrev is_recorded : Account → TransactionId → Bool
is_recorded account tx_id = contains_key tx_id account.transactions

unfoldable pub sets_are_recorded : Account → Bool
sets_are_recorded account =
    all (is_recorded account) account.normal
    && all (is_recorded account) account.disputes
    && all (is_recorded account) account.resolves
    && all (is_recorded account) account.chargebacks

unfoldable pub sizes_agree : Account → Bool
sizes_agree account =
    length account.normal
      + length account.disputes
      + length account.resolves
      + length account.chargebacks
    == length account.transactions

unfoldable pub sets_are_disjoint : Account → Bool
sets_are_disjoint account =
    is_disjoint account.normal account.disputes
    && is_disjoint account.normal account.resolves
    && is_disjoint account.normal account.chargebacks
    && is_disjoint account.disputes account.resolves
    && is_disjoint account.disputes account.chargebacks
    && is_disjoint account.resolves account.chargebacks

abbrev pub is_disputed : Option (TransactionState × InputMessage) → Bool
is_disputed none = false
is_disputed (some (disputed, _)) = true
is_disputed (some (normal, _)) = false
is_disputed (some (resolved, _)) = false
is_disputed (some (chargeback, _)) = false

unfoldable pub disputes_are_disputed : Account → Bool
disputes_are_disputed account =
    all (λ tx_id. is_disputed (get tx_id account.transactions)) account.disputes

unfoldable pub lock_has_chargeback : Account → Bool
lock_has_chargeback account = if account.locked then not (is_empty account.chargebacks) else true

abbrev pub add_disputed : Amount → TransactionId × (TransactionState × InputMessage) → Amount
add_disputed acc (_, (disputed, msg)) = Amount.add acc msg.amount
add_disputed acc (_, (normal, _)) = acc
add_disputed acc (_, (resolved, _)) = acc
add_disputed acc (_, (chargeback, _)) = acc

unfoldable pub pending_sum : HashMap (TransactionState × InputMessage) → Amount
pending_sum transactions = foldl add_disputed Amount.zero transactions

unfoldable pub held_is_pending : Account → Bool
held_is_pending account = eq_ℤ account.held (pending_sum account.transactions)

-- `check_invariants`, the assertions in their order
unfoldable pub check_invariants : Account → Bool
check_invariants account =
    balances_hold account
    && all_entries (in_one_set account) account.transactions
    && sets_are_recorded account
    && sizes_agree account
    && sets_are_disjoint account
    && disputes_are_disputed account
    && lock_has_chargeback account
    && held_is_pending account
