-- ===== src/Service/Sequential/Serving.antt =====
-- One message of the event loop (src/service/mod.rs) while nobody needs a receiver that is gone.
use nda_takehome.Base.{
  ⊤, true, List, [], ◌∷◌, ◌++◌, ◌≡◌, refl, sym, ap, ◌∙◌, arith, subst, Bool-cases, inl, inr, ◌⊎◌,
}
use nda_takehome.Base.Outcome.{Outcome, ok, Build}
use nda_takehome.Base.Action.{bind_ok}
use nda_takehome.Service.PendingTransaction.{Channel}
use nda_takehome.Service.State.{
  Server, Receivers, Sent, ServiceMessage, incoming, transaction_batch_completion, ServiceError,
}
use nda_takehome.Service.Engine.{handle_buffer, send_completion, iteration}
use nda_takehome.Service.Sequential.Accounts.{AllConsistent}
use nda_takehome.Service.Sequential.Pending.{AllOpen}
use nda_takehome.Service.Sequential.Batch.{handle_buffer_lem}
use nda_takehome.Service.Sequential.Outlook.{incoming_of, InOrder, OnTrack}
use nda_takehome.Service.Sequential.Server.{iteration-Keeps}

-- After the completion message the buffer is empty.
abbrev pub Empties : ServiceMessage → Server → Type 0
Empties (incoming m c) self = Unit
Empties (transaction_batch_completion c) self = self.ordered_messages ≡ []

module _ (build : Build) (receivers : Receivers) where
  send_completion-ordered_messages :
      (c : Channel) (self : Server)
      → (send_completion receivers c self).1.ordered_messages ≡ self.ordered_messages
  unfolding send_completion
  send_completion-ordered_messages c self =
      elim (Bool-cases (receivers.completion_open c self.sent)) [
        | inl is_open ↦ rw is_open refl
        | inr is_closed ↦ rw is_closed refl
      ]

  iteration-Empties :
      AllOpen receivers
      → (msg : ServiceMessage) (self : Server) → AllConsistent self.accounts
      → Empties msg (iteration build receivers msg self).1
  unfolding iteration
  iteration-Empties all_open (incoming m c) self consistent = tt
  iteration-Empties all_open (transaction_batch_completion c) self consistent =
      let (good, flushes) = handle_buffer_lem build receivers all_open self consistent in
      ap (λ r. r.1.ordered_messages)
        (bind_ok (handle_buffer build receivers) (λ _. send_completion receivers c) self tt good)
      ∙ send_completion-ordered_messages c (handle_buffer build receivers self).1
      ∙ flushes.emptied

module _ (build : Build) (receivers : Receivers) where
  -- An outcome can be sent, or there is none to be sent.
  abbrev pub CanServe : ServiceMessage → Server → Type 0
  CanServe msg self =
      ((c : Channel) (sent : List Sent) → receivers.callback_open c sent ≡ true)
      ⊎ ((incoming_of (msg ∷ []) ≡ []) × (self.ordered_messages ≡ []))

  -- With an empty buffer, it does not matter who receives outcomes.
  iteration-idle :
      (c : Channel) (base : Server)
      → let msg = transaction_batch_completion c in
        let self = record base { ordered_messages = [] } in
        iteration build receivers msg self
        ≡ iteration build (record receivers { callback_open = λ _ _. true }) msg self
  unfolding iteration handle_buffer send_completion
  iteration-idle c base = refl

  abbrev pub Serves :
      ServiceMessage → List ServiceMessage → Server → Outcome ServiceError ⊤ × Server → Type 0
  Serves msg rx self (result, self') =
      (result ≡ ok tt) × OnTrack build (msg ∷ rx) rx self self' × Empties msg self'

  pub iteration-Serves :
      (msg : ServiceMessage) (rx : List ServiceMessage) (self : Server)
      → ((c : Channel) (sent : List Sent) → receivers.completion_open c sent ≡ true)
      → CanServe msg self
      → AllConsistent self.accounts
      → InOrder (self.ordered_messages ++ incoming_of (msg ∷ rx))
      → Serves msg rx self (iteration build receivers msg self)
  iteration-Serves msg rx self signal_open (inl callback_open) consistent strict =
      let all_open : AllOpen receivers = (callback_open, signal_open) in
      let (good, track) = iteration-Keeps build receivers all_open self msg rx consistent strict in
      (good, track, iteration-Empties build receivers all_open msg self consistent)
  iteration-Serves (incoming m c) rx self signal_open (inr (no_message, idle)) consistent strict =
      ground arith
  iteration-Serves (transaction_batch_completion c) rx self signal_open (inr (none_in, idle))
        consistent strict =
      let msg = transaction_batch_completion c in
      let listening : Receivers = record receivers { callback_open = λ _ _. true } in
      let all_open : AllOpen listening = (λ _ _. refl, signal_open) in
      let (good, track) = iteration-Keeps build listening all_open self msg rx consistent strict in
      subst (Serves msg rx self)
        (sym (
          subst
            (λ b.
              let self' = record self { ordered_messages = b } in
              iteration build receivers msg self' ≡ iteration build listening msg self')
            (sym idle) (iteration-idle c self)))
        (good, track, iteration-Empties build listening all_open msg self consistent)
