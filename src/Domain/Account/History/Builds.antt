-- ===== src/Domain/Account/History/Builds.antt =====
-- Debug and release builds of src/domain/account.rs, side by side.
use nda_takehome.Base.{⊤, Bool, true, false, if◌then◌else◌, ◌≡◌, refl, arith, sym, ◌∙◌, ap}
use nda_takehome.Base.Outcome.{Outcome, ok, err, debug, release}
use nda_takehome.Domain.Transaction.{TransactionId, TransactionType}
use nda_takehome.Message.{InputMessage}
use nda_takehome.Service.Error.{TransactionError, account_locked}
use nda_takehome.Domain.Account.State.{Account}
use nda_takehome.Domain.Account.Check.{check_invariants}
use nda_takehome.Domain.Account.Operations.{
  process, process_deposit, process_withdrawal, process_dispute, process_resolve,
  process_chargeback, push_history, shared_prestep, dispatch,
}
use nda_takehome.Base.Action.{◌>>◌}
use nda_takehome.Domain.Account.Operations.Unlocked.{
  unlocked_deposit, unlocked_withdrawal, unlocked_dispute, unlocked_resolve, unlocked_chargeback,
  AccountAction,
}
use nda_takehome.Domain.Account.Settlement.Prestep.{shared_prestep_lem}
use nda_takehome.Domain.Account.Invariant.{IsConsistent}
use nda_takehome.Domain.Account.Invariant.Checks.{check_invariants_lem}

-- The result of a release build, as a debug build would have logged it.
abbrev pub logged :
    InputMessage → Outcome TransactionError ⊤ × Account → Outcome TransactionError ⊤ × Account
logged msg (r, acc) = (r, push_history debug msg acc)

-- An operation does not look at the history.
abbrev IgnoresHistory : AccountAction ⊤ → Type 0
IgnoresHistory op =
    (msg : InputMessage) (self : Account) → op (push_history debug msg self) ≡ logged msg (op self)

deposit-IgnoresHistory : (msg : InputMessage) → IgnoresHistory (unlocked_deposit msg)
unfolding unlocked_deposit
deposit-IgnoresHistory msg m self = ground arith

withdrawal-IgnoresHistory : (msg : InputMessage) → IgnoresHistory (unlocked_withdrawal msg)
unfolding unlocked_withdrawal
withdrawal-IgnoresHistory msg m self = ground arith

dispute-IgnoresHistory : (key : TransactionId) → IgnoresHistory (unlocked_dispute key)
unfolding unlocked_dispute
dispute-IgnoresHistory key m self = ground arith

resolve-IgnoresHistory : (key : TransactionId) → IgnoresHistory (unlocked_resolve key)
unfolding unlocked_resolve
resolve-IgnoresHistory key m self = ground arith

chargeback-IgnoresHistory : (key : TransactionId) → IgnoresHistory (unlocked_chargeback key)
unfolding unlocked_chargeback
chargeback-IgnoresHistory key m self = ground arith

after_verdict_logged :
    (msg : InputMessage) (body : AccountAction ⊤) (self : Account)
    → IgnoresHistory body
    → (b : Bool)
    → let refuse : AccountAction ⊤ = λ a. (if b then err account_locked else ok tt, a) in
      (refuse >> body) (push_history debug msg self) ≡ logged msg ((refuse >> body) self)
after_verdict_logged msg body self h true = refl
after_verdict_logged msg body self h false = h msg self

prestep_logged :
    (msg : InputMessage) (body : AccountAction ⊤) (acc : Account)
    → check_invariants acc ≡ true
    → IgnoresHistory body
    → (shared_prestep debug msg >> body) acc ≡ logged msg ((shared_prestep release msg >> body) acc)
prestep_logged msg body acc checked h =
    ap (λ p. ((λ _. p) >> body) acc) (shared_prestep_lem debug msg acc checked)
    ∙ after_verdict_logged msg body acc h acc.locked
    ∙ sym
        (ap (λ p. logged msg (((λ _. p) >> body) acc)) (shared_prestep_lem release msg acc checked))

dispatch-logged :
    (type : TransactionType) (msg : InputMessage) (acc : Account)
    → check_invariants acc ≡ true
    → dispatch type debug msg acc ≡ logged msg (dispatch type release msg acc)
unfolding process_deposit process_withdrawal process_dispute process_resolve process_chargeback
dispatch-logged TransactionType.deposit msg acc c =
    prestep_logged msg (unlocked_deposit msg) acc c (deposit-IgnoresHistory msg)
dispatch-logged TransactionType.withdrawal msg acc c =
    prestep_logged msg (unlocked_withdrawal msg) acc c (withdrawal-IgnoresHistory msg)
dispatch-logged TransactionType.dispute msg acc c =
    prestep_logged msg (unlocked_dispute msg.transaction_id) acc c
      (dispute-IgnoresHistory msg.transaction_id)
dispatch-logged TransactionType.resolve msg acc c =
    prestep_logged msg (unlocked_resolve msg.transaction_id) acc c
      (resolve-IgnoresHistory msg.transaction_id)
dispatch-logged TransactionType.chargeback msg acc c =
    prestep_logged msg (unlocked_chargeback msg.transaction_id) acc c
      (chargeback-IgnoresHistory msg.transaction_id)

-- On a consistent account a debug build gives every message the same result as a release build,
-- and leaves the same account but for the message that it appends to the history.
pub process_builds_agree :
    (msg : InputMessage) (acc : Account)
    → IsConsistent acc
    → process debug msg acc ≡ logged msg (process release msg acc)
unfolding process
process_builds_agree msg acc c =
    dispatch-logged msg.transaction_type msg acc (check_invariants_lem acc c)
