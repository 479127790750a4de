-- ===== src/Service/Sequential/Isolation.antt =====
-- The messages of one client among those of the others (src/service/mod.rs).
use nda_takehome.Base.{
  ℕ, List, [], ◌∷◌, some, ◌≡◌, refl, sym, ap, ◌∙◌, arith, ◌==◌, true, false, if◌then◌else◌,
  Bool-cases, inl, inr, ==_iff, subst,
}
use nda_takehome.Base.Outcome.{Build}
use nda_takehome.Collections.{get}
use nda_takehome.Collections.Laws.{get-insert}
use nda_takehome.Domain.Account.Operations.{process}
use nda_takehome.Service.PendingTransaction.{PendingTransaction}
use nda_takehome.Service.Engine.{or_new}
use nda_takehome.Service.Sequential.{Accounts, outcome, step_accounts, run_accounts}
use nda_takehome.Domain.Transaction.{ClientId}
use nda_takehome.Service.State.{Receivers, ServiceConfig, ServiceMessage, new}
use nda_takehome.Service.Engine.{server_forever}
use nda_takehome.Service.Sequential.Pending.{AllOpen}
use nda_takehome.Service.Sequential.Outlook.{InOrder, incoming_of}
use nda_takehome.Service.Sequential.Server.{server_forever_lem}

-- The messages of one client.
abbrev pub of_client : ℕ → List PendingTransaction → List PendingTransaction
of_client k [] = []
of_client k (tx ∷ txs) =
    let rest = of_client k txs in if k == (tx.message).client_id then tx ∷ rest else rest

step_same :
    (build : Build) (tx : PendingTransaction) (k : ℕ) (xs ys : Accounts)
    → get k xs ≡ get k ys
    → (k == (tx.message).client_id) ≡ true
    → get k (step_accounts build tx.message xs) ≡ get k (step_accounts build tx.message ys)
step_same build tx k xs ys same mine =
    let id = (tx.message).client_id in
    let at_id : get id xs ≡ get id ys =
      subst (λ j. get j xs ≡ get j ys) ((==_iff k id).0 mine) same in
    let written : (accounts : Accounts)
        → get k (step_accounts build tx.message accounts)
          ≡ some (outcome build tx.message accounts).1 =
      λ accounts.
        get-insert id k (outcome build tx.message accounts).1 accounts
        ∙ ap (λ b. if b then some (outcome build tx.message accounts).1 else get k accounts) mine in
    written xs
    ∙ ap (λ entry. some (process build tx.message (or_new id entry)).1) at_id
    ∙ sym (written ys)

step_other :
    (build : Build) (tx : PendingTransaction) (k : ℕ) (xs : Accounts)
    → (k == (tx.message).client_id) ≡ false
    → get k (step_accounts build tx.message xs) ≡ get k xs
step_other build tx k xs other =
    ground (arith, get-insert (tx.message).client_id k (outcome build tx.message xs).1 xs)

run_accounts_same :
    (build : Build) (k : ℕ) (txs : List PendingTransaction) (xs ys : Accounts)
    → get k xs ≡ get k ys
    → get k (run_accounts build txs xs) ≡ get k (run_accounts build (of_client k txs) ys)
unfolding run_accounts
run_accounts_same build k [] xs ys same = same
run_accounts_same build k (tx ∷ txs) xs ys same = elim (Bool-cases (k == (tx.message).client_id)) [
  | inl mine ↦ rw mine (
      run_accounts_same build k txs (step_accounts build tx.message xs)
        (step_accounts build tx.message ys) (step_same build tx k xs ys same mine))
  | inr other ↦ rw other (
      run_accounts_same build k txs (step_accounts build tx.message xs) ys
        (step_other build tx k xs other ∙ same))
]

-- Whatever the batch size, when the messages arrive oldest first and the receivers stay, the account
-- that the service ends with for a client is the one that the client's own messages make, one after
-- the other: the messages of the other clients, and how the batches fall, make no difference.
pub server_forever-of_client :
    (build : Build) (receivers : Receivers) (all_open : AllOpen receivers) (config : ServiceConfig)
    (rx : List ServiceMessage) (k : ClientId)
    → InOrder (incoming_of rx)
    → get k (server_forever build receivers rx (new config)).1.accounts
      ≡ get k (run_accounts build (of_client k (incoming_of rx)) [])
server_forever-of_client build receivers all_open config rx k strict =
    let (good, emptied, accounts, sent, completed) =
      server_forever_lem build receivers all_open config rx strict in
    ap (get k) accounts ∙ run_accounts_same build k (incoming_of rx) [] [] refl
