-- ===== src/Quint/Clients/Service.antt =====
-- What payments.qnt says of a whole run of the service (src/service/mod.rs).
use nda_takehome.Base.{
  ⊤, ℕ, true, List, [], ◌∷◌, ◌≡◌, refl, sym, ap, ◌∙◌, subst, arith, if◌then◌else◌, ◌==◌, Bool-cases,
  inl, inr,
}
use nda_takehome.Base.Outcome.{Outcome, ok, err, panicked, Build, debug, release}
use nda_takehome.Collections.{get, insert}
use nda_takehome.Collections.Laws.{get-insert}
use nda_takehome.Domain.Transaction.{ClientId}
use nda_takehome.Domain.Account.State.{Account}
use nda_takehome.Domain.Account.Operations.{push_history}
use nda_takehome.Domain.Account.History.Lifecycle.{process_locked}
use nda_takehome.Message.{InputMessage}
use nda_takehome.Service.PendingTransaction.{PendingTransaction}
use nda_takehome.Service.State.{
  ServiceConfig, ServiceMessage, Receivers, new, Server, Sent, ServiceError,
}
use nda_takehome.Service.Engine.{account_or_new, server_forever}
use nda_takehome.Service.Sequential.{Accounts, outcome, step_accounts, run_accounts}
use nda_takehome.Service.Sequential.Accounts.{
  AllConsistent, none-AllConsistent, account_or_new-IsConsistent, step_accounts-AllConsistent,
}
use nda_takehome.Service.Sequential.Outlook.{incoming_of}
use nda_takehome.Service.Sequential.Once.{Served, Safe, Emptied}
use nda_takehome.Service.Sequential.Once.Loop.{server_forever-Safe}
use nda_takehome.Quint.Refinement.{view}
use nda_takehome.Quint.Clients.{
  ClientsReach, initial, stepped, view_accounts, step_accounts-refines,
}

run_accounts-Reach :
    (build : Build) (txs : List PendingTransaction) (accounts : Accounts)
    → AllConsistent accounts
    → ClientsReach (view_accounts accounts)
    → ClientsReach (view_accounts (run_accounts build txs accounts))
unfolding run_accounts
run_accounts-Reach build [] accounts c reach = reach
run_accounts-Reach build (tx ∷ txs) accounts c reach =
    run_accounts-Reach build txs (step_accounts build tx.message accounts)
      (step_accounts-AllConsistent build tx.message accounts c)
      (subst ClientsReach (sym (step_accounts-refines build tx.message accounts c).1)
        (stepped reach tx.message))

Served-Reach :
    {build : Build} {received left : List PendingTransaction} {unsent : List Sent}
    {accounts : Accounts} {sent : List Sent}
    → Served build received left unsent accounts sent
    → ClientsReach (view_accounts accounts)
unfolding get
Served-Reach {build} served =
    subst (λ accounts. ClientsReach (view_accounts accounts)) (sym served.run)
      (run_accounts-Reach build served.processed [] none-AllConsistent initial)

Safe-Reach :
    (build : Build) (received : List PendingTransaction) (r : Outcome ServiceError ⊤ × Server)
    → Safe build received (Emptied build received []) r
    → ClientsReach (view_accounts r.1.accounts)
Safe-Reach build received (ok u, self) (emptied, served) = Served-Reach served
Safe-Reach build received (err e, self) (left, (unsent, (few, served))) = Served-Reach served
Safe-Reach build received (panicked, self) h = elim h [ ]

-- Whatever the service receives, whatever its receivers do and however it ends, its accounts look
-- like a state that the specification reaches from no transactions at all.
pub server_forever-Reach :
    (build : Build) (receivers : Receivers) (config : ServiceConfig) (rx : List ServiceMessage)
    → ClientsReach (view_accounts (server_forever build receivers rx (new config)).1.accounts)
server_forever-Reach build receivers config rx =
    Safe-Reach build (incoming_of rx) (server_forever build receivers rx (new config))
      (server_forever-Safe build receivers config rx)

view-push_history :
    (build : Build) (msg : InputMessage) (acc : Account)
    → view (push_history build msg acc) ≡ view acc
view-push_history debug msg acc = refl
view-push_history release msg acc = refl

account_or_new-insert :
    (k j : ℕ) (acc : Account) (accounts : Accounts)
    → account_or_new j (insert k acc accounts) ≡ (if j == k then acc else account_or_new j accounts)
account_or_new-insert k j acc accounts = ground (arith, get-insert k j acc accounts)

step_accounts-locked :
    (build : Build) (msg : InputMessage) (accounts : Accounts) (k : ClientId)
    → AllConsistent accounts
    → (account_or_new k accounts).locked ≡ true
    → view_accounts (step_accounts build msg accounts) k ≡ view_accounts accounts k
step_accounts-locked build msg accounts k c locked =
    let entry = (outcome build msg accounts).1 in
    let found = account_or_new-insert msg.client_id k entry accounts in
    elim (Bool-cases (k == msg.client_id)) [
      | inl same ↦
          let is_k : k ≡ msg.client_id = ground arith in
          let acc = account_or_new msg.client_id accounts in
          let consistent = account_or_new-IsConsistent msg.client_id accounts c in
          let l : acc.locked ≡ true =
            subst (λ j. (account_or_new j accounts).locked ≡ true) is_k locked in
          ap view (found ∙ ap (λ b. if b then entry else account_or_new k accounts) same)
          ∙ ap view (process_locked build msg acc consistent l).1
          ∙ view-push_history build msg acc
          ∙ ap (λ j. view_accounts accounts j) (sym is_k)
      | inr other ↦ ap view (found ∙ ap (λ b. if b then entry else account_or_new k accounts) other)
    ]

-- Once an account is locked, it stays locked, and nothing that the specification sees of it changes
-- any more: its balances and its transactions are the same after any further messages to it and to
-- other clients. The accounts are consistent before.
pub run_accounts-locked :
    (build : Build) (txs : List PendingTransaction) (accounts : Accounts) (k : ClientId)
    → AllConsistent accounts
    → (account_or_new k accounts).locked ≡ true
    → view_accounts (run_accounts build txs accounts) k ≡ view_accounts accounts k
unfolding run_accounts
run_accounts-locked build [] accounts k c locked = refl
run_accounts-locked build (tx ∷ txs) accounts k c locked =
    let same = step_accounts-locked build tx.message accounts k c locked in
    run_accounts-locked build txs (step_accounts build tx.message accounts) k
      (step_accounts-AllConsistent build tx.message accounts c) (ap (λ s. s.locked) same ∙ locked)
    ∙ same
