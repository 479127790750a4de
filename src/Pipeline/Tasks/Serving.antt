-- ===== src/Pipeline/Tasks/Serving.antt =====
-- The moves of the service and of the counting task (src/main.rs), while `main` waits.
use nda_takehome.Base.{
  ℕ, ⊤, true, false, Option, none, List, [], ◌∷◌, ◌++◌, ◌≡◌, refl, sym, ap, ◌∙◌, arith, subst,
  Bool-cases, inl, inr, is_empty-nil,
}
use nda_takehome.Base.Outcome.{Outcome, Build}
use nda_takehome.Infrastructure.CsvReader.{RawInputMessage}
use nda_takehome.Infrastructure.CsvReader.Rows.{scan}
use nda_takehome.Service.PendingTransaction.{Channel}
use nda_takehome.Service.State.{
  Server, ServiceConfig, new, ServiceMessage, incoming, transaction_batch_completion, ServiceError,
}
use nda_takehome.Service.Engine.{iteration, tick}
use nda_takehome.Service.Snapshot.{Snapshot}
use nda_takehome.Service.Sequential.Outlook.{incoming_of, OnTrack, OnTrack-trans}
use nda_takehome.Service.Sequential.Serving.{Empties, CanServe, Serves, iteration-Serves}
use nda_takehome.Pipeline.Outcomes.{Tally}
use nda_takehome.Pipeline.Tasks.{
  System, ending, receivers_of, waiting, is_waiting, is_loaded, is_ended, no_sender,
}
use nda_takehome.Pipeline.Tasks.Invariant.{
  sends, coming, Phase, before_signal, after_signal, Phase-next, Running,
}

no_message_in :
    (msg : ServiceMessage) (rest : List ServiceMessage)
    → incoming_of (msg ∷ rest) ≡ []
    → (incoming_of (msg ∷ []) ≡ []) × (incoming_of rest ≡ [])
no_message_in (incoming m c) rest e = ground arith
no_message_in (transaction_batch_completion c) rest e = (refl, e)

idle-Empties :
    (msg : ServiceMessage) (self : Server)
    → incoming_of (msg ∷ []) ≡ []
    → Empties msg self
    → self.ordered_messages ≡ []
idle-Empties (incoming m c) self e h = ground arith
idle-Empties (transaction_batch_completion c) self e h = h

module _ {W : Type 0} (build : Build) (tx_sx signal_sx : Channel) (config : ServiceConfig)
    (records : List (Option RawInputMessage)) (snapshot : Snapshot W) where
  abbrev Runs : System W → Type 0
  Runs = Running build tx_sx signal_sx config records snapshot

  tick-Phase :
      (rest : List ServiceMessage) (self : Server)
      → Phase build tx_sx signal_sx (scan build 0 records).1 rest self
      → Phase build tx_sx signal_sx (scan build 0 records).1 rest (tick self)
  tick-Phase rest self (before_signal ms none_yet e) = before_signal ms none_yet e
  tick-Phase rest self (after_signal good confirmed last empty) =
      after_signal good confirmed last empty

  tick-OnTrack :
      (before after : List ServiceMessage) (self self' : Server)
      → OnTrack build before after self self'
      → OnTrack build before after self (tick self')
  tick-OnTrack before after self self' track = record {
    same = track.same;
    consistent = track.consistent;
    strict = track.strict;
    config = track.config;
  }

  Running-CanServe :
      (s : System W) (msg : ServiceMessage) (rest : List ServiceMessage)
      → s.svc_queue ≡ msg ∷ rest
      → Runs s
      → CanServe build (receivers_of s) msg (tick s.service)
  Running-CanServe s msg rest queue runs = elim (Bool-cases s.counting) [
    | inl counting ↦ inl (λ c sent. counting)
    | inr done ↦
        let (is_loaded, none_in, empty) = runs.idle done in
        inr ((no_message_in msg rest (ap incoming_of (sym queue) ∙ none_in)).0, empty)
  ]

  pub serve-Running :
      (s : System W) (msg : ServiceMessage) (rest : List ServiceMessage)
      (r : Outcome ServiceError ⊤) (service : Server)
      → s.main ≡ waiting
      → s.svc_queue ≡ msg ∷ rest
      → iteration build (receivers_of s) msg (tick s.service) ≡ (r, service)
      → Runs s
      → Runs (record s { svc_queue = rest; service = service; service_end = ending r })
  serve-Running s msg rest r service wait queue e runs =
      let result = (scan build 0 records).1 in
      let rx = rest ++ coming build tx_sx signal_sx s.load in
      let all = sends tx_sx signal_sx (scan build 0 records) in
      let here = ap (λ q. q ++ coming build tx_sx signal_sx s.load) queue in
      let track =
        tick-OnTrack all (msg ∷ rx) (new config) s.service
          (subst (λ l. OnTrack build all l (new config) s.service) here runs.track) in
      let (good, track', empties) =
        subst (Serves build (receivers_of s) msg rx (tick s.service)) e (
          iteration-Serves build (receivers_of s) msg rx (tick s.service)
            (λ c sent. ap is_waiting wait) (Running-CanServe s msg rest queue runs) track.consistent
            track.strict) in
      record {
        alive = ap ending good;
        leads = runs.leads;
        track = OnTrack-trans track track';
        phase =
            Phase-next build tx_sx signal_sx result msg rx (tick s.service) service track' empties (
              tick-Phase (msg ∷ rx) s.service
                (subst (λ l. Phase build tx_sx signal_sx result l s.service) here runs.phase));
        idle = λ done.
            let (is_loaded, none_in, empty) = runs.idle done in
            let (no_message, rest_none) =
              no_message_in msg rest (ap incoming_of (sym queue) ∙ none_in) in
            (is_loaded, rest_none, idle-Empties msg service no_message empties);
        unwritten = runs.unwritten;
      }

  pub count_one-Running :
      (s : System W) (counted : ℕ) (tally : Tally)
      → Runs s
      → Runs (record s { counted = counted; tally = tally })
  count_one-Running s counted tally runs = record {
    alive = runs.alive;
    leads = runs.leads;
    track = runs.track;
    phase = runs.phase;
    idle = runs.idle;
    unwritten = runs.unwritten;
  }

  no_sender_lem :
      (s : System W)
      → no_sender s ≡ true
      → s.service_end ≡ none
      → (is_loaded s.load ≡ true)
        × (incoming_of s.svc_queue ≡ [])
        × ((s.service).ordered_messages ≡ [])
  no_sender_lem s e alive = ground (
    arith,
    ap is_ended alive,
    is_empty-nil (incoming_of s.svc_queue),
    is_empty-nil (s.service).ordered_messages,
  )

  pub count_end-Running :
      (s : System W) (ok_count err_count : ℕ)
      → no_sender s ≡ true
      → Runs s
      → Runs (record s {
        counting = false;
        pipeline_transactions_ok = ok_count;
        pipeline_transactions_failed = err_count;
      })
  count_end-Running s ok_count err_count none_left runs = record {
    alive = runs.alive;
    leads = runs.leads;
    track = runs.track;
    phase = runs.phase;
    idle = λ _. no_sender_lem s none_left runs.alive;
    unwritten = runs.unwritten;
  }
