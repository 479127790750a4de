-- ===== src/Service/Sequential/Accounts.antt =====
-- The accounts of the engine (src/service/mod.rs) under the invariant of one account.
use nda_takehome.Base.{
  ℕ, List, [], ◌∷◌, ◌++◌, some, ◌≡◌, refl, ap, arith, Option-cases, Bool-cases, subst, ◌==◌, inl,
  inr,
}
use nda_takehome.Base.Outcome.{Build}
use nda_takehome.Collections.{get}
use nda_takehome.Collections.Laws.{get-insert}
use nda_takehome.Domain.Account.State.{Account}
use nda_takehome.Domain.Account.Invariant.{IsConsistent}
use nda_takehome.Domain.Account.Invariant.Preservation.{new-IsConsistent}
use nda_takehome.Domain.Account.History.Safety.{process-IsConsistent}
use nda_takehome.Message.{InputMessage}
use nda_takehome.Service.PendingTransaction.{PendingTransaction}
use nda_takehome.Service.Engine.{account_or_new}
use nda_takehome.Service.Sequential.{
  Accounts, outcome, step_accounts, run_accounts, run_sent, sent_of,
}

abbrev pub AllConsistent : Accounts → Type 0
AllConsistent accounts = (k : ℕ) (acc : Account) → get k accounts ≡ some acc → IsConsistent acc

pub none-AllConsistent : AllConsistent []
unfolding get
none-AllConsistent k acc e = ground arith

pub account_or_new-IsConsistent :
    (k : ℕ) (accounts : Accounts)
    → AllConsistent accounts
    → IsConsistent (account_or_new k accounts)
account_or_new-IsConsistent k accounts h = elim (Option-cases (get k accounts)) [
  | inl e ↦ rw e (new-IsConsistent k)
  | inr (acc, e) ↦ rw e (h k acc e)
]

pub step_accounts-AllConsistent :
    (build : Build) (msg : InputMessage) (accounts : Accounts)
    → AllConsistent accounts
    → AllConsistent (step_accounts build msg accounts)
step_accounts-AllConsistent build msg accounts h k acc e =
    let entry = (outcome build msg accounts).1 in
    elim (Bool-cases (k == msg.client_id)) [
      | inl same ↦
          let found : entry ≡ acc = ground (arith, get-insert msg.client_id k entry accounts) in
          subst IsConsistent found
            (process-IsConsistent build msg (account_or_new-IsConsistent msg.client_id accounts h))
      | inr other ↦ h k acc (ground (arith, get-insert msg.client_id k entry accounts))
    ]

pub run_accounts-AllConsistent :
    (build : Build) (txs : List PendingTransaction) (accounts : Accounts)
    → AllConsistent accounts
    → AllConsistent (run_accounts build txs accounts)
unfolding run_accounts
run_accounts-AllConsistent build [] accounts h = h
run_accounts-AllConsistent build (tx ∷ txs) accounts h =
    run_accounts-AllConsistent build txs (step_accounts build tx.message accounts)
      (step_accounts-AllConsistent build tx.message accounts h)

pub run_accounts-append :
    (build : Build) (xs ys : List PendingTransaction) (accounts : Accounts)
    → run_accounts build (xs ++ ys) accounts
      ≡ run_accounts build ys (run_accounts build xs accounts)
unfolding run_accounts
run_accounts-append build [] ys accounts = refl
run_accounts-append build (tx ∷ xs) ys accounts =
    run_accounts-append build xs ys (step_accounts build tx.message accounts)

pub run_sent-append :
    (build : Build) (xs ys : List PendingTransaction) (accounts : Accounts)
    → run_sent build (xs ++ ys) accounts
      ≡ run_sent build xs accounts ++ run_sent build ys (run_accounts build xs accounts)
unfolding run_accounts run_sent
run_sent-append build [] ys accounts = refl
run_sent-append build (tx ∷ xs) ys accounts =
    ap (◌∷◌ (sent_of build tx accounts))
      (run_sent-append build xs ys (step_accounts build tx.message accounts))
