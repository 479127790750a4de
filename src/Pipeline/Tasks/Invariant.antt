-- ===== src/Pipeline/Tasks/Invariant.antt =====
-- What holds while `main` (src/main.rs) waits, in whatever order its tasks have moved.
use mathlib.Core.List.{head-eq_of_cons-eq, tail-eq_of_cons-eq}
use nda_takehome.Base.{
  ⊤, true, false, Option, none, List, [], ◌∷◌, ◌++◌, length, ◌≡◌, refl, sym, ap, ◌∙◌, arith, subst,
  append-nil, length-append,
}
use nda_takehome.Base.Outcome.{Outcome, ok, err, panicked, Build}
use nda_takehome.Message.{InputMessage}
use nda_takehome.Infrastructure.CsvReader.{RawInputMessage, ReadError}
use nda_takehome.Infrastructure.CsvReader.Rows.{scan}
use nda_takehome.Service.PendingTransaction.{Channel}
use nda_takehome.Service.State.{
  Server, ServiceConfig, new, ServiceMessage, transaction_batch_completion,
}
use nda_takehome.Service.Snapshot.{Snapshot}
use nda_takehome.Service.Sequential.Outlook.{completions_of, incoming_of, OnTrack}
use nda_takehome.Service.Sequential.Serving.{Empties}
use nda_takehome.Pipeline.Loading.{incoming_all}
use nda_takehome.Pipeline.EndToEnd.{signal_of}
use nda_takehome.Pipeline.Tasks.{System, LoadTask, loading, loaded, read, is_loaded}
use nda_takehome.Pipeline.Tasks.Reads.{IsReading}

-- What the service gets for the rows from the place `n` on.
abbrev pub sends : Channel → Channel → List InputMessage × Outcome ReadError ⊤ → List ServiceMessage
sends tx_sx signal_sx (messages, result) = incoming_all tx_sx messages ++ signal_of signal_sx result

module _ (build : Build) (tx_sx signal_sx : Channel) where
  -- What the loader has still to send.
  abbrev pub coming : LoadTask → List ServiceMessage
  coming (loading l) = sends tx_sx signal_sx (scan build (l.reader).chrono_order (l.reader).records)
  coming (loaded r) = []

  -- The loader is on its way to `result`.
  abbrev pub LeadsTo : Outcome ReadError ⊤ → LoadTask → Type 0
  LeadsTo result (loading l) =
      IsReading l.reader × ((scan build (l.reader).chrono_order (l.reader).records).1 ≡ result)
  LeadsTo result (loaded r) = r ≡ read result

  -- Where the service is, with `rest` still to be received.
  pub data Phase (result : Outcome ReadError ⊤) (rest : List ServiceMessage) (self : Server)
      : Type 0 where
    before_signal :
        (ms : List InputMessage)
        → self.completed ≡ []
        → rest ≡ sends tx_sx signal_sx (ms, result)
        → Phase result rest self
    after_signal :
        result ≡ ok tt
        → self.completed ≡ signal_sx ∷ []
        → rest ≡ []
        → self.ordered_messages ≡ []
        → Phase result rest self

  appended_empty : (xs ys zs : List Channel) → xs ++ ys ≡ zs → length zs ≡ length ys → xs ≡ []
  appended_empty [] ys zs e h = refl
  appended_empty (x ∷ xs) ys zs e h = ground (arith, ap length e, length-append xs ys)

  pub Phase-next :
      (result : Outcome ReadError ⊤) (msg : ServiceMessage) (rx : List ServiceMessage)
      (self self' : Server)
      → OnTrack build (msg ∷ rx) rx self self'
      → Empties msg self'
      → Phase result (msg ∷ rx) self
      → Phase result rx self'
  Phase-next result msg rx self self' track empties (before_signal (m ∷ ms) none_yet e) =
      let same = ap (λ o. o.completed) track.same in
      before_signal ms
        (appended_empty self'.completed (completions_of rx) (completions_of rx)
          (same
            ∙ ap (λ l. l ++ completions_of (msg ∷ rx)) none_yet
            ∙ ap (λ m. completions_of (m ∷ rx)) (head-eq_of_cons-eq e))
          refl)
        (tail-eq_of_cons-eq e)
  Phase-next (ok u) msg rx self self' track empties (before_signal [] none_yet e) =
      let same = ap (λ o. o.completed) track.same in
      let is_last : rx ≡ [] = tail-eq_of_cons-eq e in
      let is_signal : msg ≡ transaction_batch_completion signal_sx = head-eq_of_cons-eq e in
      after_signal refl
        (sym (append-nil self'.completed)
          ∙ ap (λ l. self'.completed ++ completions_of l) (sym is_last)
          ∙ same
          ∙ ap (λ l. l ++ completions_of (msg ∷ rx)) none_yet
          ∙ ap (λ m. completions_of (m ∷ rx)) is_signal
          ∙ ap (λ l. signal_sx ∷ completions_of l) is_last)
        is_last (subst (λ m. Empties m self') is_signal empties)
  Phase-next (err _) msg rx self self' track empties (before_signal [] none_yet e) = ground arith
  Phase-next panicked msg rx self self' track empties (before_signal [] none_yet e) = ground arith
  Phase-next result msg rx self self' track empties (after_signal _ _ e _) = ground arith

-- While `main` waits.
pub record Running {W : Type 0} (build : Build) (tx_sx signal_sx : Channel) (config : ServiceConfig)
    (records : List (Option RawInputMessage)) (snapshot : Snapshot W) (s : System W) : Type 0 where
  pub alive : s.service_end ≡ none
  pub leads : LeadsTo build tx_sx signal_sx (scan build 0 records).1 s.load
  pub track :
      OnTrack build
        (sends tx_sx signal_sx (scan build 0 records))
        (s.svc_queue ++ coming build tx_sx signal_sx s.load)
        (new config)
        s.service
  pub phase :
      Phase build tx_sx signal_sx
        (scan build 0 records).1
        (s.svc_queue ++ coming build tx_sx signal_sx s.load)
        s.service
  -- when the counting task has ended, no outcome is missing
  pub idle :
      s.counting ≡ false
      → (is_loaded s.load ≡ true)
        × (incoming_of s.svc_queue ≡ [])
        × ((s.service).ordered_messages ≡ [])
  pub unwritten : s.snapshot ≡ snapshot
