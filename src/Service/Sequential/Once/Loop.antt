-- ===== src/Service/Sequential/Once/Loop.antt =====
-- The event loop (src/service/mod.rs) whatever the receivers do and however the messages come: each
-- of its parts against `Safe`.
use nda_takehome.Base.{
  ℕ, zero, suc, ◌≤◌, true, false, List, [], ◌∷◌, ◌++◌, ◌≡◌, refl, sym, arith, length, append_assoc,
  subst, ◌==◌, leb, Bool-cases, inl, inr, some,
}
use mathlib.Core.List.Perm
use nda_takehome.Base.Outcome.{Outcome, Build}
use nda_takehome.Base.Action.{◌>>=◌, modify}
use nda_takehome.Collections.{get}
use nda_takehome.Collections.Heap.{select, push}
use nda_takehome.Collections.Heap.Order.{length-select}
use nda_takehome.Domain.Account.State.{Account}
use nda_takehome.Domain.Account.Check.{check_invariants}
use nda_takehome.Domain.Account.Invariant.Checks.{check_invariants_lem}
use nda_takehome.Service.PendingTransaction.{PendingTransaction, Channel, cmp}
use nda_takehome.Service.State.{
  Server, Receivers, ServiceError, ServiceConfig, new, ServiceMessage, incoming,
  transaction_batch_completion,
}
use nda_takehome.Service.Engine.{
  Counts, drain, handle_buffer, start_batch, finish_batch, send_completion, iteration, tick,
  receive_all, server_forever,
}
use nda_takehome.Service.Sequential.{outcome, step_accounts, sent_of, run_accounts, run_sent}
use nda_takehome.Service.Sequential.Pending.{tally, settled, process_pending_open}
use nda_takehome.Service.Sequential.Closed.{process_pending_closed}
use nda_takehome.Service.Sequential.Outlook.{incoming_of}
use nda_takehome.Service.Sequential.Once.{
  Served, Safe, Safe-bind, Safe-weaken, Safe-AllConsistent, Waiting, Emptied, Emptied-Waiting,
  Served-AllConsistent, Served-select, Served-sent,
}

module _ (build : Build) (received : List PendingTransaction) (receivers : Receivers) where
  drain-Safe :
      (fuel : ℕ) (buffer more : List PendingTransaction) (counts : Counts) (base : Server)
      → length buffer ≤ fuel
      → Served build received (buffer ++ more) [] base.accounts base.sent
      → Safe build received
          (Emptied build received more)
          (drain build receivers fuel counts (record base { ordered_messages = buffer }))
  unfolding drain
  drain-Safe zero [] more counts base h served = (refl, served)
  drain-Safe zero (x ∷ xs) more counts base h served = elim h [ ]
  drain-Safe (suc fuel) [] more counts base h served = (refl, served)
  drain-Safe (suc fuel) (x ∷ xs) more counts base h served =
      let (tx, rest) = select cmp x xs in
      let start : Server = record base { ordered_messages = rest } in
      let consistent = Served-AllConsistent build received served in
      let served' = Served-select build received x xs more base.accounts base.sent served in
      let last = sent_of build tx base.accounts in
      let go_on = λ (p : Outcome ServiceError Counts × Server).
        ((λ (_ : Server). p) >>= λ counts'. drain build receivers fuel counts') start in
      elim (Bool-cases (receivers.callback_open tx.callback base.sent)) [
        | inl is_open ↦
            subst (λ p. Safe build received (Emptied build received more) (go_on p))
              (sym (process_pending_open build receivers tx counts start is_open consistent))
              (drain-Safe fuel rest more (tally (outcome build tx.message base.accounts).0 counts)
                (settled build tx start) (omega (arith, length-select cmp x xs))
                (Served-sent build received (rest ++ more) last
                  (step_accounts build tx.message base.accounts) base.sent served'))
        | inr is_closed ↦
            subst (λ p. Safe build received (Emptied build received more) (go_on p))
              (sym (process_pending_closed build receivers tx counts start is_closed consistent))
              (rest ++ more, (last ∷ [], (omega arith, served')))
      ]

  handle_buffer-Safe :
      (buffer more : List PendingTransaction) (base : Server)
      → Served build received (buffer ++ more) [] base.accounts base.sent
      → Safe build received
          (Emptied build received more)
          (handle_buffer build receivers (record base { ordered_messages = buffer }))
  unfolding handle_buffer
  handle_buffer-Safe [] more base served = (refl, served)
  handle_buffer-Safe (x ∷ xs) more base served =
      let self : Server = record base { ordered_messages = x ∷ xs } in
      let size = length (x ∷ xs) in
      let full : (size == 0) ≡ false = ground arith in
      rw full (
        Safe-bind build received (Emptied build received more) (Emptied build received more)
          (drain build receivers size (0, 0) (start_batch size self))
          (λ counts. modify (finish_batch counts)) self
          (drain-Safe size (x ∷ xs) more (0, 0) (start_batch size self) (omega arith) served)
          (λ (processed, failed) self' h. h))

  send_completion-Safe :
      (c : Channel) (rx : List ServiceMessage) (self : Server)
      → Waiting build received (incoming_of rx) self
      → Safe build received
          (Waiting build received (incoming_of rx))
          (send_completion receivers c self)
  unfolding send_completion
  send_completion-Safe c rx self h = elim (Bool-cases (receivers.completion_open c self.sent)) [
    | inl is_open ↦ rw is_open h
    | inr is_closed ↦ rw is_closed (self.ordered_messages ++ incoming_of rx, ([], (omega arith, h)))
  ]

  iteration-Safe :
      (msg : ServiceMessage) (rx : List ServiceMessage) (self : Server)
      → Waiting build received (incoming_of (msg ∷ rx)) self
      → Safe build received
          (Waiting build received (incoming_of rx))
          (iteration build receivers msg self)
  unfolding iteration send_completion
  iteration-Safe (incoming m c) rx self h =
      let tx : PendingTransaction = record { message = m; callback = c } in
      let buffer = push tx self.ordered_messages in
      let h' =
        subst (λ l. Served build received l [] self.accounts self.sent)
          (sym (append_assoc self.ordered_messages (tx ∷ []) (incoming_of rx))) h in
      elim (Bool-cases (leb self.config.batch_size (length buffer))) [
        | inl full ↦ rw full (
            Safe-weaken build received (Emptied build received (incoming_of rx))
              (Waiting build received (incoming_of rx))
              (handle_buffer build receivers (record self { ordered_messages = buffer }))
              (Emptied-Waiting build received (incoming_of rx))
              (handle_buffer-Safe buffer (incoming_of rx) self h'))
        | inr more ↦ rw more h'
      ]
  iteration-Safe (transaction_batch_completion c) rx self h =
      Safe-bind build received (Emptied build received (incoming_of rx))
        (Waiting build received (incoming_of rx)) (handle_buffer build receivers self)
        (λ _. send_completion receivers c) self
        (handle_buffer-Safe self.ordered_messages (incoming_of rx) self h)
        (λ _ self' h'.
          send_completion-Safe c rx self'
            (Emptied-Waiting build received (incoming_of rx) self' h'))

  receive_all-Safe :
      (rx : List ServiceMessage) (self : Server)
      → Waiting build received (incoming_of rx) self
      → Safe build received (Waiting build received []) (receive_all build receivers rx self)
  unfolding receive_all
  receive_all-Safe [] self h = h
  receive_all-Safe (msg ∷ rx) self h =
      Safe-bind build received (Waiting build received (incoming_of rx)) (Waiting build received [])
        (iteration build receivers msg (tick self)) (λ _. receive_all build receivers rx) self
        (iteration-Safe msg rx (tick self) h) (λ _. receive_all-Safe rx)

  server_forever-Emptied :
      (rx : List ServiceMessage) (self : Server)
      → Waiting build received (incoming_of rx) self
      → Safe build received (Emptied build received []) (server_forever build receivers rx self)
  unfolding server_forever
  server_forever-Emptied rx self h =
      Safe-bind build received (Waiting build received []) (Emptied build received [])
        (receive_all build receivers rx self) (λ _. handle_buffer build receivers) self
        (receive_all-Safe rx self h)
        (λ _ self' h'. handle_buffer-Safe self'.ordered_messages [] self' h')

-- Whatever the receivers do, and in whatever order the messages come, the service never panics. If
-- it ends normally, its buffer is empty and it has processed every message that it was sent exactly
-- once, one after the other from no accounts at all, and has sent every outcome in that order. If it
-- ends with an error, what it has processed and sent is of that kind too, no message twice, and at
-- most the outcome of the last message processed is not sent.
pub server_forever-Safe :
    (build : Build) (receivers : Receivers) (config : ServiceConfig) (rx : List ServiceMessage)
    → Safe build
        (incoming_of rx)
        (Emptied build (incoming_of rx) [])
        (server_forever build receivers rx (new config))
unfolding run_accounts run_sent
server_forever-Safe build receivers config rx =
    server_forever-Emptied build (incoming_of rx) receivers rx (new config)
      (record { processed = []; once = Perm.refl (incoming_of rx); run = refl; reported = refl })

-- Every account of the service passes `check_invariants`, whether the service ends normally or with
-- an error, whatever the receivers do and in whatever order the messages come.
pub server_forever-check_invariants :
    (build : Build) (receivers : Receivers) (config : ServiceConfig) (rx : List ServiceMessage)
    (k : ℕ) (acc : Account)
    → get k (server_forever build receivers rx (new config)).1.accounts ≡ some acc
    → check_invariants acc ≡ true
server_forever-check_invariants build receivers config rx k acc e = check_invariants_lem acc (
    Safe-AllConsistent build (incoming_of rx) (server_forever build receivers rx (new config))
      (server_forever-Safe build receivers config rx) k acc e)
