-- ===== src/Domain/Account/History/Safety.antt =====
-- Accounts that messages lead to, and the debug assertions (src/domain/account.rs).
use nda_takehome.Base.{⊤, true, ◌≡◌, ◌≢◌, arith}
use nda_takehome.Base.Outcome.{Outcome, panicked, Build}
use nda_takehome.Domain.Transaction.{ClientId}
use nda_takehome.Message.{InputMessage}
use nda_takehome.Service.Error.{TransactionError}
use nda_takehome.Domain.Account.State.{Account}
use nda_takehome.Domain.Account.Check.{check_invariants}
use nda_takehome.Domain.Account.Operations.{process, push_history}
use nda_takehome.Domain.Account.Settlement.{
  Settles, refused, deposits, withdraws, disputes, resolves, charges_back,
}
use nda_takehome.Domain.Account.Settlement.Soundness.{process-Settles}
use nda_takehome.Domain.Account.Invariant.{IsConsistent}
use nda_takehome.Domain.Account.Invariant.Checks.{check_invariants_lem}
use nda_takehome.Domain.Account.Invariant.Preservation.{
  new-IsConsistent, Settles-IsConsistent, push_history-IsConsistent,
}
use nda_takehome.Domain.Account.History.{Reachable, created, processed}

-- A consistent account settles each message, whatever it is.
pub consistent-Settles :
    (build : Build) (msg : InputMessage) {acc : Account}
    → IsConsistent acc
    → let (r, acc') = process build msg acc in Settles (push_history build msg acc) msg r acc'
consistent-Settles build msg {acc} c = process-Settles build msg acc (check_invariants_lem acc c)

-- Every operation keeps an account consistent, whether it succeeds or is refused.
pub process-IsConsistent :
    (build : Build) (msg : InputMessage) {acc : Account}
    → IsConsistent acc
    → IsConsistent (process build msg acc).1
process-IsConsistent build msg c =
    Settles-IsConsistent (consistent-Settles build msg c) (push_history-IsConsistent build msg c)

pub Reachable-IsConsistent :
    {build : Build} {client_id : ClientId} {acc : Account}
    → Reachable build client_id acc
    → IsConsistent acc
Reachable-IsConsistent {client_id = c} created = new-IsConsistent c
Reachable-IsConsistent {build} (processed r msg) =
    process-IsConsistent build msg (Reachable-IsConsistent r)

pub Settles-returns :
    {acc : Account} {msg : InputMessage} {r : Outcome TransactionError ⊤} {acc' : Account}
    → Settles acc msg r acc'
    → r ≢ panicked
Settles-returns (refused why) = ground arith
Settles-returns (deposits u t p e) = ground arith
Settles-returns (withdraws u t p e n) = ground arith
Settles-returns (disputes m u t e) = ground arith
Settles-returns (resolves m u t e) = ground arith
Settles-returns (charges_back m u t e) = ground arith

-- On a reachable account every debug assertion of `check_invariants` holds, and the next message
-- of any kind is settled without a panic and leaves an account on which they all hold again.
pub Reachable-check_invariants :
    (build : Build) (client_id : ClientId) (acc : Account) (msg : InputMessage)
    → Reachable build client_id acc
    → (check_invariants acc ≡ true)
      × ((process build msg acc).0 ≢ panicked)
      × (check_invariants (process build msg acc).1 ≡ true)
Reachable-check_invariants build client_id acc msg r =
    let c = Reachable-IsConsistent r in
    (
      check_invariants_lem acc c,
      Settles-returns (consistent-Settles build msg c),
      check_invariants_lem _ (process-IsConsistent build msg c),
    )
