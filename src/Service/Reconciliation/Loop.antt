-- ===== src/Service/Reconciliation/Loop.antt =====
-- The instruments of the event loop (src/service/mod.rs) from its start to its end.
use nda_takehome.Base.{
  ℕ, ◌+◌, ◌≤◌, ◌<◌, List, [], ◌∷◌, ◌≡◌, refl, ap, arith, length, length-append, ◌==◌, leb,
  Bool-cases, inl, inr, true, subst,
}
use nda_takehome.Base.Outcome.{ok, Build}
use nda_takehome.Base.Action.{modify}
use nda_takehome.Collections.Heap.{push}
use nda_takehome.Service.PendingTransaction.{PendingTransaction, Channel}
use nda_takehome.Service.State.{
  Server, Receivers, ServiceConfig, ServiceMessage, incoming, transaction_batch_completion, new,
}
use nda_takehome.Service.Engine.{
  drain, handle_buffer, start_batch, finish_batch, send_completion, iteration, tick, receive_all,
  server_forever,
}
use nda_takehome.Service.Reconciliation.{
  Returned, Returned-bind, Returned-weaken, Leaves, drain-Leaves,
}
use nda_takehome.Service.Sequential.Outlook.{incoming_of}
use nda_takehome.Service.Reconciliation.Batches.{
  limit, Reconciles, finish_batch-Reconciles, limit_positive,
}

length_zero : {A : Type 0} (xs : List A) → (length xs == 0) ≡ true → xs ≡ []
length_zero [] h = refl
length_zero (x ∷ xs) h = ground arith

limit_covers : (config : ServiceConfig) → config.batch_size ≤ limit config
limit_covers config = ground arith

length-incoming_of :
    (msg : ServiceMessage) (rx : List ServiceMessage)
    → length (incoming_of (msg ∷ rx)) ≡ length (incoming_of (msg ∷ [])) + length (incoming_of rx)
length-incoming_of (incoming m c) rx = omega arith
length-incoming_of (transaction_batch_completion c) rx = omega arith

module _ (build : Build) (receivers : Receivers) (config : ServiceConfig) where
  handle_buffer-Reconciles :
      (ticks received : ℕ) (self : Server)
      → Reconciles config ticks received self
      → length self.ordered_messages ≤ limit config
      → Returned
          (λ _ self'. Reconciles config ticks received self' × (self'.ordered_messages ≡ []))
          (handle_buffer build receivers self)
  unfolding handle_buffer
  handle_buffer-Reconciles ticks received self r h =
      let size = length self.ordered_messages in
      elim (Bool-cases (size == 0)) [
        | inl e ↦ rw e (r, length_zero self.ordered_messages e)
        | inr e ↦
            let started = start_batch size self in
            rw e (
              Returned-bind (Leaves [] size (0, 0) started)
                (λ _ self'. Reconciles config ticks received self' × (self'.ordered_messages ≡ []))
                (drain build receivers size (0, 0) started) (λ counts. modify (finish_batch counts))
                self
                (drain-Leaves build receivers size self.ordered_messages (0, 0) started refl
                  (omega arith))
                λ counts after leaves.
                  finish_batch-Reconciles config ticks received self after counts (ground arith) h
                    leaves r)
      ]

  -- Between two messages the buffer holds fewer messages than a batch may have.
  abbrev Idle : ℕ → ℕ → Server → Type 0
  Idle ticks received self =
      Reconciles config ticks received self × (length self.ordered_messages < limit config)

  Idle-at : {t t' n n' : ℕ} (self : Server) → t ≡ t' → n ≡ n' → Idle t n self → Idle t' n' self
  Idle-at {t} {t'} {n} {n'} self et en h =
      subst (λ k. Idle t' k self) en (subst (λ k. Idle k n self) et h)

  emptied-Idle :
      (ticks received : ℕ) (self : Server)
      → Reconciles config ticks received self × (self.ordered_messages ≡ [])
      → Idle ticks received self
  emptied-Idle ticks received self (r, emptied) =
      let none_left = ap length emptied in (r, omega (arith, limit_positive config))

  send_completion-Idle :
      (c : Channel) (ticks received : ℕ) (self : Server)
      → Idle ticks received self
      → Returned (λ _. Idle ticks received) (send_completion receivers c self)
  unfolding send_completion
  send_completion-Idle c ticks received self h =
      elim (Bool-cases (receivers.completion_open c self.sent)) [
        | inl is_open ↦ rw is_open h
        | inr is_closed ↦ rw is_closed tt
      ]

  iteration-Idle :
      (msg : ServiceMessage) (ticks received : ℕ) (self : Server)
      → Idle ticks received self
      → Returned
          (λ _. Idle ticks (received + length (incoming_of (msg ∷ []))))
          (iteration build receivers msg self)
  unfolding iteration
  iteration-Idle (incoming m c) ticks received self ((c', t, total, agrees), room) =
      let tx : PendingTransaction = record { message = m; callback = c } in
      let pushed : Server = record self { ordered_messages = push tx self.ordered_messages } in
      let longer = length-append self.ordered_messages (tx ∷ []) in
      let r : Reconciles config ticks (received + 1) pushed = (c', t, omega arith, agrees) in
      elim (Bool-cases (leb self.config.batch_size (length pushed.ordered_messages))) [
        | inl full ↦ rw full (
            Returned-weaken
              (λ _ self'.
                Reconciles config ticks (received + 1) self' × (self'.ordered_messages ≡ []))
              (λ _. Idle ticks (received + 1)) (handle_buffer build receivers pushed)
              (λ _. emptied-Idle ticks (received + 1))
              (handle_buffer-Reconciles ticks (received + 1) pushed r (omega arith)))
        | inr more ↦
            let below = ap (λ b. b.batch_size) c' in
            rw more (r, ground (arith, limit_covers config))
      ]
  iteration-Idle (transaction_batch_completion c) ticks received self (r, room) =
      Returned-bind
        (λ _ self'. Reconciles config ticks received self' × (self'.ordered_messages ≡ []))
        (λ _. Idle ticks (received + 0)) (handle_buffer build receivers self)
        (λ _. send_completion receivers c) self
        (handle_buffer-Reconciles ticks received self r (omega arith))
        λ _ self' h.
          send_completion-Idle c ticks (received + 0) self'
            (Idle-at self' refl (omega arith) (emptied-Idle ticks received self' h))

  receive_all-Idle :
      (rx : List ServiceMessage) (ticks received : ℕ) (self : Server)
      → Idle ticks received self
      → Returned
          (λ _. Idle (ticks + length rx) (received + length (incoming_of rx)))
          (receive_all build receivers rx self)
  unfolding receive_all
  receive_all-Idle [] ticks received self h = Idle-at self (omega arith) (omega arith) h
  receive_all-Idle (msg ∷ rx) ticks received self ((c, t, total, agrees), room) =
      let got = received + length (incoming_of (msg ∷ [])) in
      Returned-bind (λ _. Idle (ticks + 1) got)
        (λ _. Idle (ticks + length (msg ∷ rx)) (received + length (incoming_of (msg ∷ rx))))
        (iteration build receivers msg (tick self)) (λ _. receive_all build receivers rx) self
        (iteration-Idle msg (ticks + 1) received (tick self)
          ((c, omega arith, total, agrees), room))
        λ _ self' h.
          Returned-weaken (λ _. Idle (ticks + 1 + length rx) (got + length (incoming_of rx)))
            (λ _. Idle (ticks + length (msg ∷ rx)) (received + length (incoming_of (msg ∷ rx))))
            (receive_all build receivers rx self')
            (λ _ end. Idle-at end (omega arith) (omega (arith, length-incoming_of msg rx)))
            (receive_all-Idle rx (ticks + 1) got self' h)

  server_forever-Returned :
      (rx : List ServiceMessage)
      → Returned
          (λ _ self.
            Reconciles config (length rx) (length (incoming_of rx)) self
            × (self.ordered_messages ≡ []))
          (server_forever build receivers rx (new config))
  unfolding server_forever
  server_forever-Returned rx =
      Returned-bind (λ _. Idle (0 + length rx) (0 + length (incoming_of rx)))
        (λ _ self.
          Reconciles config (length rx) (length (incoming_of rx)) self
          × (self.ordered_messages ≡ []))
        (receive_all build receivers rx (new config)) (λ _. handle_buffer build receivers)
        (new config)
        (receive_all-Idle rx 0 0 (new config)
          ((refl, refl, refl, (refl, refl, refl, refl, tt)), limit_positive config))
        λ _ self h.
          let (r, room) = Idle-at self (omega arith) (omega arith) h in
          handle_buffer-Reconciles (length rx) (length (incoming_of rx)) self r (omega arith)

-- The instruments reconcile. When the service ends normally, whatever its receivers did and in
-- whatever order the messages came, it has counted one tick for each message; the sizes of its
-- batches add up to the number of the transactions that it was sent, and so do the two counters of
-- processed and failed transactions, and the recorded labels; each batch has one size and one
-- duration. A batch is never empty and never larger than the batch size of the configuration, where
-- a batch size of 0 works as 1.
pub server_forever-Reconciles :
    (build : Build) (receivers : Receivers) (config : ServiceConfig) (rx : List ServiceMessage)
    (self : Server)
    → server_forever build receivers rx (new config) ≡ (ok tt, self)
    → Reconciles config (length rx) (length (incoming_of rx)) self × (self.ordered_messages ≡ [])
server_forever-Reconciles build receivers config rx self e =
    subst
      (Returned λ _ self.
        Reconciles config (length rx) (length (incoming_of rx)) self × (self.ordered_messages ≡ []))
      e (server_forever-Returned build receivers config rx)
