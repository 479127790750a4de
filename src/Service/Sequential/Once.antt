-- ===== src/Service/Sequential/Once.antt =====
-- The event loop (src/service/mod.rs) whatever the receivers do and however the messages come:
-- what has been processed when it ends, normally or with an error.
pub mod Loop
use nda_takehome.Base.{
  ℕ, zero, suc, ◌+◌, ◌≤◌, ⊤, true, false, List, [], ◌∷◌, ◌++◌, ◌≡◌, ◌≢◌, refl, sym, ap, ◌∙◌, arith,
  length, append_assoc, append-nil, subst, ◌==◌, leb, Bool-cases, inl, inr, some,
}
use mathlib.Core.List.{Perm}
use mathlib.Core.List.Perm
use nda_takehome.Base.Outcome.{Outcome, ok, err, panicked, Build}
use nda_takehome.Base.Action.{◌>>=◌, ◌>>◌, modify, pure}
use nda_takehome.Collections.{get}
use nda_takehome.Collections.Heap.{select, push}
use nda_takehome.Collections.Heap.Order.{select-perm, length-select}
use nda_takehome.Message.{InputMessage}
use nda_takehome.Domain.Account.State.{Account}
use nda_takehome.Domain.Account.Check.{check_invariants}
use nda_takehome.Domain.Account.Invariant.Checks.{check_invariants_lem}
use nda_takehome.Service.PendingTransaction.{PendingTransaction, Channel, cmp}
use nda_takehome.Service.State.{
  Server, Receivers, Sent, ServiceError, ServerAction, ServiceConfig, new, ServiceMessage, incoming,
  transaction_batch_completion, callback_closed,
}
use nda_takehome.Service.Engine.{
  Counts, process_pending, drain, handle_buffer, start_batch, finish_batch, send_completion,
  iteration, tick, receive_all, server_forever,
}
use nda_takehome.Service.Sequential.{
  Accounts, outcome, step_accounts, sent_of, run_accounts, run_sent,
}
use nda_takehome.Service.Sequential.Accounts.{
  AllConsistent, none-AllConsistent, run_accounts-AllConsistent, run_accounts-append,
  run_sent-append,
}
use nda_takehome.Service.Sequential.Pending.{tally, settled, process_pending_open}
use nda_takehome.Service.Sequential.Closed.{unreported, process_pending_closed}
use nda_takehome.Service.Sequential.Outlook.{incoming_of}

-- Of the messages `received`, all but those of `left` have been processed, each of them once and
-- one after the other, and all outcomes but those of `unsent` have been sent, in that order.
pub record Served (build : Build) (received left : List PendingTransaction) (unsent : List Sent)
    (accounts : Accounts) (sent : List Sent) : Type 0 where
  pub processed : List PendingTransaction
  pub once : Perm (processed ++ left) received
  pub run : accounts ≡ run_accounts build processed []
  pub reported : sent ++ unsent ≡ run_sent build processed []

module _ (build : Build) (received : List PendingTransaction) where
  -- An action that ends in a state of `P`, or fails with at most the last outcome not sent.
  abbrev pub Safe {ℓ} : {A : Type ℓ} → (Server → Type 0) → Outcome ServiceError A × Server → Type 0
  Safe P (ok a, self) = P self
  Safe P (err e, self) =
      (left : List PendingTransaction) × ((unsent : List Sent) × ((length unsent ≤ 1)
          × Served build received left unsent self.accounts self.sent))
  Safe P (panicked, self) = ⊥

  pub Safe-bind {ℓ} :
      {A : Type ℓ} (P Q : Server → Type 0) (r : Outcome ServiceError A × Server)
      (f : A → ServerAction ⊤) (self : Server)
      → Safe P r
      → ((a : A) (self' : Server) → P self' → Safe Q (f a self'))
      → Safe Q (((λ (_ : Server). r) >>= f) self)
  Safe-bind P Q (ok a, self') f self h next = next a self' h
  Safe-bind P Q (err e, self') f self h next = h
  Safe-bind P Q (panicked, self') f self h next = elim h [ ]

  pub Safe-weaken {ℓ} :
      {A : Type ℓ} (P Q : Server → Type 0) (r : Outcome ServiceError A × Server)
      → ((self : Server) → P self → Q self)
      → Safe P r
      → Safe Q r
  Safe-weaken P Q (ok a, self) next h = next self h
  Safe-weaken P Q (err e, self) next h = h
  Safe-weaken P Q (panicked, self) next h = h

  -- Of `more`, nothing has been received yet.
  abbrev pub Waiting : List PendingTransaction → Server → Type 0
  Waiting more self =
      Served build received (self.ordered_messages ++ more) [] self.accounts self.sent

  abbrev pub Emptied : List PendingTransaction → Server → Type 0
  Emptied more self =
      (self.ordered_messages ≡ []) × Served build received more [] self.accounts self.sent

  pub Emptied-Waiting :
      (more : List PendingTransaction) (self : Server) → Emptied more self → Waiting more self
  Emptied-Waiting more self (emptied, served) =
      subst (λ l. Served build received (l ++ more) [] self.accounts self.sent) (sym emptied) served

  pub Served-AllConsistent :
      {left : List PendingTransaction} {unsent : List Sent} {accounts : Accounts} {sent : List Sent}
      → Served build received left unsent accounts sent
      → AllConsistent accounts
  Served-AllConsistent served =
      subst AllConsistent (sym served.run)
        (run_accounts-AllConsistent build served.processed [] none-AllConsistent)

  pub Safe-AllConsistent {ℓ} :
      {A : Type ℓ} (r : Outcome ServiceError A × Server)
      → Safe (Emptied []) r
      → AllConsistent r.1.accounts
  Safe-AllConsistent (ok a, self) h = Served-AllConsistent h.1
  Safe-AllConsistent (err e, self) (left, (unsent, (few, served))) = Served-AllConsistent served
  Safe-AllConsistent (panicked, self) h = elim h [ ]

  -- The message that the heap gives out is processed.
  pub Served-select :
      (x : PendingTransaction) (xs more : List PendingTransaction) (accounts : Accounts)
      (sent : List Sent)
      → Served build received (x ∷ xs ++ more) [] accounts sent
      → let (tx, rest) = select cmp x xs in
        Served build received
          (rest ++ more)
          (sent_of build tx accounts ∷ [])
          (step_accounts build tx.message accounts)
          sent
  unfolding run_accounts run_sent
  Served-select x xs more accounts sent served =
      let (tx, rest) = select cmp x xs in
      let before = served.processed in
      record {
        processed = before ++ tx ∷ [];
        once =
            subst (λ l. Perm l received) (sym (append_assoc before (tx ∷ []) (rest ++ more)))
              (Perm.trans
                (Perm.append_left before
                  (Perm.symm (Perm.append_right more (select-perm cmp x xs))))
                served.once);
        run =
            ap (step_accounts build tx.message) served.run
            ∙ sym (run_accounts-append build before (tx ∷ []) []);
        reported =
            ap (λ l. l ++ sent_of build tx accounts ∷ []) (sym (append-nil sent) ∙ served.reported)
            ∙ ap (λ a. run_sent build before [] ++ sent_of build tx a ∷ []) served.run
            ∙ sym (run_sent-append build before (tx ∷ []) []);
      }

  pub Served-sent :
      (left : List PendingTransaction) (last : Sent) (accounts : Accounts) (sent : List Sent)
      → Served build received left (last ∷ []) accounts sent
      → Served build received left [] accounts (sent ++ last ∷ [])
  Served-sent left last accounts sent served = record {
    processed = served.processed;
    once = served.once;
    run = served.run;
    reported = append-nil (sent ++ last ∷ []) ∙ served.reported;
  }
