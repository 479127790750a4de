-- ===== src/Service/Sequential/Server.antt =====
-- `Service::server_forever` (src/service/mod.rs) on messages that arrive in order.
use nda_takehome.Base.{
  ⊤, List, [], ◌∷◌, ◌++◌, ◌≡◌, refl, sym, ap, ◌∙◌, length, append_assoc, append-nil, subst, leb,
  Bool-cases, inl, inr,
}
use nda_takehome.Base.Outcome.{Outcome, ok, Build}
use nda_takehome.Base.Action.{◌>>◌, modify}
use nda_takehome.Collections.Heap.{push}
use nda_takehome.Message.{InputMessage}
use nda_takehome.Service.PendingTransaction.{Channel, PendingTransaction}
use nda_takehome.Service.State.{
  Server, Receivers, ServiceError, ServerAction, ServiceMessage, incoming,
  transaction_batch_completion, new, ServiceConfig,
}
use nda_takehome.Service.Engine.{
  handle_buffer, send_completion, iteration, receive_all, server_forever, tick,
}
use nda_takehome.Service.Sequential.{run_accounts, run_sent}
use nda_takehome.Service.Sequential.Accounts.{AllConsistent, none-AllConsistent}
use nda_takehome.Service.Sequential.Pending.{AllOpen}
use nda_takehome.Service.Sequential.Batch.{handle_buffer_lem}
use nda_takehome.Service.Sequential.Outlook.{
  incoming_of, completions_of, InOrder, outlook, OnTrack, Flushes-OnTrack, OnTrack-trans,
}

module _ (build : Build) (receivers : Receivers) (all_open : AllOpen receivers) where
  -- An action that succeeds and keeps on track.
  abbrev pub Keeps :
      List ServiceMessage → List ServiceMessage → Server → Outcome ServiceError ⊤ × Server → Type 0
  Keeps before after self (result, self') = (result ≡ ok tt) × OnTrack build before after self self'

  handle_buffer-Keeps :
      (self : Server) (rx : List ServiceMessage)
      → AllConsistent self.accounts
      → InOrder (self.ordered_messages ++ incoming_of rx)
      → Keeps rx rx self (handle_buffer build receivers self)
  handle_buffer-Keeps self rx c strict =
      let (good, flushes) = handle_buffer_lem build receivers all_open self c in
      (good, Flushes-OnTrack build self (handle_buffer build receivers self).1 rx c strict flushes)

  Keeps-bind :
      {rx1 rx2 rx3 : List ServiceMessage} (first second : ServerAction ⊤) (self : Server)
      → Keeps rx1 rx2 self (first self)
      → ((self' : Server)
          → AllConsistent self'.accounts
          → InOrder (self'.ordered_messages ++ incoming_of rx2)
          → Keeps rx2 rx3 self' (second self'))
      → Keeps rx1 rx3 self ((first >> second) self)
  Keeps-bind {rx1} {rx2} {rx3} first second self (good, track) next =
      let self' = (first self).1 in
      let (good', track') = next self' track.consistent track.strict in
      subst (λ r. Keeps rx1 rx3 self (((λ (_ : Server). r) >> second) self))
        (ap (λ r. (r, self')) (sym good)) (good', OnTrack-trans track track')

  push-Keeps :
      (self : Server) (m : InputMessage) (c : Channel) (rx : List ServiceMessage)
      → AllConsistent self.accounts
      → InOrder (self.ordered_messages ++ incoming_of (incoming m c ∷ rx))
      → OnTrack build (incoming m c ∷ rx) rx self (record self {
        ordered_messages = push (record { message = m; callback = c }) self.ordered_messages;
      })
  push-Keeps self m c rx consistent strict =
      let tx : PendingTransaction = record { message = m; callback = c } in
      let moved = append_assoc self.ordered_messages (tx ∷ []) (incoming_of rx) in
      record {
        same = rw moved refl;
        consistent = consistent;
        strict = subst InOrder (sym moved) strict;
        config = refl;
      }

  send_completion-Keeps :
      (self : Server) (c : Channel) (rx : List ServiceMessage)
      → AllConsistent self.accounts
      → InOrder (self.ordered_messages ++ incoming_of rx)
      → Keeps (transaction_batch_completion c ∷ rx) rx self (send_completion receivers c self)
  unfolding send_completion
  send_completion-Keeps self c rx consistent strict = rw (all_open.1 c self.sent) (
    refl,
    record {
      same = rw (append_assoc self.completed (c ∷ []) (completions_of rx)) refl;
      consistent = consistent;
      strict = strict;
      config = refl;
    },
  )

  pub iteration-Keeps :
      (self : Server) (msg : ServiceMessage) (rx : List ServiceMessage)
      → AllConsistent self.accounts
      → InOrder (self.ordered_messages ++ incoming_of (msg ∷ rx))
      → Keeps (msg ∷ rx) rx self (iteration build receivers msg self)
  unfolding iteration
  iteration-Keeps self (incoming m c) rx consistent strict =
      let tx : PendingTransaction = record { message = m; callback = c } in
      let self' : Server = record self { ordered_messages = push tx self.ordered_messages } in
      let track = push-Keeps self m c rx consistent strict in
      elim (Bool-cases (leb self.config.batch_size (length (push tx self.ordered_messages)))) [
        | inl full ↦ rw full (
            let (good, track') = handle_buffer-Keeps self' rx track.consistent track.strict in
            (good, OnTrack-trans track track'))
        | inr more ↦ rw more (refl, track)
      ]
  iteration-Keeps self (transaction_batch_completion c) rx consistent strict =
      Keeps-bind (handle_buffer build receivers) (send_completion receivers c) self
        (handle_buffer-Keeps self (transaction_batch_completion c ∷ rx) consistent strict)
        (λ self' consistent' strict'. send_completion-Keeps self' c rx consistent' strict')

  tick-OnTrack :
      (self : Server) (rx : List ServiceMessage)
      → AllConsistent self.accounts
      → InOrder (self.ordered_messages ++ incoming_of rx)
      → OnTrack build rx rx self (tick self)
  tick-OnTrack self rx consistent strict = record {
    same = refl;
    consistent = consistent;
    strict = strict;
    config = refl;
  }

  receive_all-Keeps :
      (rx : List ServiceMessage) (self : Server)
      → AllConsistent self.accounts
      → InOrder (self.ordered_messages ++ incoming_of rx)
      → Keeps rx [] self (receive_all build receivers rx self)
  unfolding receive_all
  receive_all-Keeps [] self consistent strict =
      (refl, record { same = refl; consistent = consistent; strict = strict; config = refl })
  receive_all-Keeps (msg ∷ rx) self consistent strict =
      Keeps-bind (modify tick >> iteration build receivers msg) (receive_all build receivers rx)
        self
        (let (good, track) = iteration-Keeps (tick self) msg rx consistent strict in
          (good, OnTrack-trans (tick-OnTrack self (msg ∷ rx) consistent strict) track))
        (receive_all-Keeps rx)

  -- Whatever the batch size, and wherever the batches are flushed in between, the service that gets
  -- its messages oldest first and whose receivers are all there returns normally with an empty
  -- buffer, having processed the messages one after the other: its accounts, the outcomes that it
  -- has sent and their order are those of the sequential run, and every completion is confirmed.
  pub server_forever_lem :
      (config : ServiceConfig) (rx : List ServiceMessage)
      → InOrder (incoming_of rx)
      → let (result, self) = server_forever build receivers rx (new config) in
        (result ≡ ok tt)
        × (self.ordered_messages ≡ [])
        × (self.accounts ≡ run_accounts build (incoming_of rx) [])
        × (self.sent ≡ run_sent build (incoming_of rx) [])
        × (self.completed ≡ completions_of rx)
  unfolding server_forever run_accounts run_sent
  server_forever_lem config rx strict =
      let start = new config in
      let self = (receive_all build receivers rx start).1 in
      let (good, track) = receive_all-Keeps rx start none-AllConsistent strict in
      let (good', flushes) = handle_buffer_lem build receivers all_open self track.consistent in
      let self' = (handle_buffer build receivers self).1 in
      let track' = Flushes-OnTrack build self self' [] track.consistent track.strict flushes in
      let same : outlook build [] self' ≡ outlook build rx start = track'.same ∙ track.same in
      subst {A = Outcome ServiceError ⊤ × Server}
        (λ r.
          let (result, last) = ((λ (_ : Server). r) >> handle_buffer build receivers) start in
          (result ≡ ok tt)
          × (last.ordered_messages ≡ [])
          × (last.accounts ≡ run_accounts build (incoming_of rx) [])
          × (last.sent ≡ run_sent build (incoming_of rx) [])
          × (last.completed ≡ completions_of rx))
        (ap (λ r. (r, self)) (sym good))
        (
          good',
          flushes.emptied,
          ap (λ txs. run_accounts build (txs ++ []) self'.accounts) (sym flushes.emptied)
              ∙ ap (λ o. o.accounts) same,
          sym (append-nil self'.sent)
              ∙ ap (λ txs. self'.sent ++ run_sent build (txs ++ []) self'.accounts)
                  (sym flushes.emptied)
              ∙ ap (λ o. o.sent) same,
          sym (append-nil self'.completed) ∙ ap (λ o. o.completed) same,
        )
