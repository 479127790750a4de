-- ===== src/Quint/Clients.antt =====
-- payments.qnt with all its clients, and the accounts of the service (src/service/mod.rs) as its
-- states.
pub mod Service
use nda_takehome.Base.{
  ⊤, ℕ, true, false, Bool, Option, none, some, List, [], ◌∷◌, ◌≡◌, refl, sym, ap, ◌∙◌, subst,
  fun_ext, arith, if◌then◌else◌, ◌==◌, Bool-cases, inl, inr,
}
use nda_takehome.Base.Int.{ℤ}
use nda_takehome.Base.Outcome.{Outcome, ok, err, panicked, Build, debug, release}
use nda_takehome.Collections.{get, insert}
use nda_takehome.Collections.Laws.{get-insert}
use nda_takehome.Domain.Transaction.{ClientId, TransactionType}
use nda_takehome.Domain.Account.State.{Account}
use nda_takehome.Domain.Account.Operations.{push_history}
use nda_takehome.Domain.Account.History.Lifecycle.{process_locked}
use nda_takehome.Message.{InputMessage}
use nda_takehome.Service.Error.{TransactionError}
use nda_takehome.Service.PendingTransaction.{PendingTransaction}
use nda_takehome.Service.State.{
  ServiceConfig, ServiceMessage, Receivers, new, Server, Sent, ServiceError,
}
use nda_takehome.Service.Engine.{account_or_new, server_forever}
use nda_takehome.Service.Sequential.{Accounts, outcome, step_accounts, run_accounts}
use nda_takehome.Service.Sequential.Accounts.{
  AllConsistent, none-AllConsistent, account_or_new-IsConsistent, step_accounts-AllConsistent,
}
use nda_takehome.Service.Sequential.Outlook.{incoming_of}
use nda_takehome.Service.Sequential.Once.{Served, Safe, Emptied}
use nda_takehome.Service.Sequential.Once.Loop.{server_forever-Safe}
use nda_takehome.Quint.{SpecState, init, step, after_step}
use nda_takehome.Quint.Refinement.{view, next_of, message_step, process-refines}

-- `accounts` and `txRecords`, by client.
abbrev pub Clients : Type 0
Clients = ℕ → SpecState

abbrev pub init_clients : Clients
init_clients client_id = init

abbrev pub set_client : ClientId → SpecState → Clients → Clients
set_client client_id s clients k = if k == client_id then s else clients k

abbrev pub set_next : ClientId → Clients → Option SpecState → Option Clients
set_next client_id clients none = none
set_next client_id clients (some s) = some (set_client client_id s clients)

-- `step`, with the choices that a message makes.
abbrev pub clients_step : InputMessage → Clients → Option Clients
clients_step msg clients =
    set_next msg.client_id clients
      (step msg.transaction_type msg.transaction_id msg.amount (clients msg.client_id))

abbrev pub after_clients_step : Option Clients → Clients → Clients
after_clients_step none clients = clients
after_clients_step (some next) clients = next

-- The states that `init` and `step` lead to.
pub data ClientsReach : Clients → Type 0 where
  initial : ClientsReach init_clients
  stepped :
      {clients : Clients}
      → ClientsReach clients
      → (msg : InputMessage) → ClientsReach (after_clients_step (clients_step msg clients) clients)

-- What the specification sees of the service's accounts.
abbrev pub view_accounts : Accounts → Clients
view_accounts accounts client_id = view (account_or_new client_id accounts)

abbrev pub next_clients : Outcome TransactionError ⊤ → Accounts → Option Clients
next_clients (ok _) accounts = some (view_accounts accounts)
next_clients (err _) accounts = none
next_clients panicked accounts = none

view_accounts-insert :
    (k : ℕ) (acc : Account) (accounts : Accounts)
    → ◌≡◌ {A = Clients}
        (set_client k (view acc) (view_accounts accounts))
        (view_accounts (insert k acc accounts))
view_accounts-insert k acc accounts = fun_ext λ j. ground (arith, get-insert k j acc accounts)

set_client-same :
    (k : ℕ) (s : SpecState) (clients : Clients)
    → s ≡ clients k
    → ◌≡◌ {A = Clients} (set_client k s clients) clients
set_client-same k s clients e = fun_ext λ j. ground arith

refused_unchanged :
    (acc' : Account) (msg : InputMessage) (accounts : Accounts)
    → let acc = account_or_new msg.client_id accounts in
      message_step msg acc ≡ none
      → view acc' ≡ after_step (message_step msg acc) (view acc)
      → (clients_step msg (view_accounts accounts) ≡ none)
        × (view_accounts (insert msg.client_id acc' accounts)
            ≡ after_clients_step
                (clients_step msg (view_accounts accounts))
                (view_accounts accounts))
refused_unchanged acc' msg accounts e same =
    let clients = view_accounts accounts in
    let acc = account_or_new msg.client_id accounts in
    let next = ap (set_next msg.client_id clients) e in
    (
      next,
      sym (view_accounts-insert msg.client_id acc' accounts)
          ∙ set_client-same msg.client_id (view acc') clients
              (same ∙ ap (λ n. after_step n (view acc)) e)
          ∙ sym (ap (λ n. after_clients_step n clients) next),
    )

step_accounts-refines_as :
    (r : Outcome TransactionError ⊤) (acc' : Account) (msg : InputMessage) (accounts : Accounts)
    → let acc = account_or_new msg.client_id accounts in
      let accounts' = insert msg.client_id acc' accounts in
      message_step msg acc ≡ next_of r acc'
      → view acc' ≡ after_step (message_step msg acc) (view acc)
      → (clients_step msg (view_accounts accounts) ≡ next_clients r accounts')
        × (view_accounts accounts'
            ≡ after_clients_step
                (clients_step msg (view_accounts accounts))
                (view_accounts accounts))
step_accounts-refines_as (ok u) acc' msg accounts e same =
    let next =
      ap (set_next msg.client_id (view_accounts accounts)) e
      ∙ ap some (view_accounts-insert msg.client_id acc' accounts) in
    (next, sym (ap (λ n. after_clients_step n (view_accounts accounts)) next))
step_accounts-refines_as (err f) acc' msg accounts e same =
    refused_unchanged acc' msg accounts e same
step_accounts-refines_as panicked acc' msg accounts e same =
    refused_unchanged acc' msg accounts e same

-- The accounts of the service and the specification agree on every message, whatever the other
-- clients have: while every account is consistent, the specification's action for the client and
-- the transaction of the message is enabled exactly when the code reports success, and its next
-- state is then what the accounts look like; when the code reports an error, the specification sees
-- no change in any client.
pub step_accounts-refines :
    (build : Build) (msg : InputMessage) (accounts : Accounts)
    → AllConsistent accounts
    → let r = (outcome build msg accounts).0 in
      let accounts' = step_accounts build msg accounts in
      (clients_step msg (view_accounts accounts) ≡ next_clients r accounts')
      × (view_accounts accounts'
          ≡ after_clients_step (clients_step msg (view_accounts accounts)) (view_accounts accounts))
step_accounts-refines build msg accounts c =
    let (r, acc') = outcome build msg accounts in
    let (enabled, same) =
      process-refines build msg (account_or_new msg.client_id accounts)
        (account_or_new-IsConsistent msg.client_id accounts c) in
    step_accounts-refines_as r acc' msg accounts enabled same
