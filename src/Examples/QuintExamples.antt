-- ===== src/Examples/QuintExamples.antt =====
-- The theorems on payments.qnt and the accounts of the service, at small runs.
use nda_takehome.Base.{true, ◌≡◌, refl, arith, [], ◌∷◌}
use nda_takehome.Base.Outcome.{release}
use nda_takehome.Collections.{get, insert, contains_key, modify_at}
use nda_takehome.Base.Int.{◌+ℤ◌}
use nda_takehome.Domain.Account.Operations.{
  process, process_deposit, process_withdrawal, process_dispute, process_chargeback, shared_prestep,
}
use nda_takehome.Domain.Account.History.Safety.{Reachable-IsConsistent}
use nda_takehome.Service.State.{default_config}
use nda_takehome.Service.State
use nda_takehome.Service.Engine.{server_forever}
use nda_takehome.Service.Sequential.{Accounts, outcome, step_accounts, run_accounts}
use nda_takehome.Service.Sequential.Accounts.{AllConsistent, none-AllConsistent}
use nda_takehome.Quint.Clients.{
  clients_step, after_clients_step, next_clients, view_accounts, ClientsReach,
  step_accounts-refines,
}
use nda_takehome.Quint.Clients.Service.{server_forever-Reach, run_accounts-locked}
use nda_takehome.Examples.{pay_in, other_client, frozen_account, frozen_reached, pending}
use nda_takehome.Examples.ServiceExamples.{received, closed_ends}

step_accounts-refines_example :
    (clients_step pay_in (view_accounts [])
      ≡ next_clients (outcome release pay_in []).0 (step_accounts release pay_in []))
    × (view_accounts (step_accounts release pay_in [])
        ≡ after_clients_step (clients_step pay_in (view_accounts [])) (view_accounts []))
step_accounts-refines_example = step_accounts-refines release pay_in [] none-AllConsistent

server_forever-Reach_example : ClientsReach (
    view_accounts
      (server_forever release closed_ends received (State.new default_config)).1.accounts)
server_forever-Reach_example = server_forever-Reach release closed_ends default_config received

-- One client, whose account is locked.
abbrev one_frozen : Accounts
one_frozen = (1, frozen_account) ∷ []

one_frozen-AllConsistent : AllConsistent one_frozen
unfolding get
one_frozen-AllConsistent k acc e = ground (arith, Reachable-IsConsistent frozen_reached)

frozen-locked : frozen_account.locked ≡ true
unfolding process process_deposit process_withdrawal process_dispute process_chargeback
    shared_prestep contains_key insert modify_at get ◌+ℤ◌
frozen-locked = refl

run_accounts-locked_example :
    view_accounts (run_accounts release (pending pay_in ∷ pending other_client ∷ []) one_frozen) 1
    ≡ view_accounts one_frozen 1
unfolding get
run_accounts-locked_example =
    run_accounts-locked release (pending pay_in ∷ pending other_client ∷ []) one_frozen 1
      one_frozen-AllConsistent frozen-locked
