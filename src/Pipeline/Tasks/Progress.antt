-- ===== src/Pipeline/Tasks/Progress.antt =====
-- The tasks of `main` (src/main.rs): while `main` waits, a task other than the counting task can move.
use nda_takehome.Base.{
  true, false, Bool, Option, none, some, List, [], ◌∷◌, ◌≡◌, refl, ap, arith, inl, inr, ◌||◌,
  is_empty, Bool-cases,
}
use nda_takehome.Base.Outcome.{Outcome, ok, err, panicked, Build}
use nda_takehome.Collections.{contains}
use nda_takehome.Message.{InputMessage}
use nda_takehome.Infrastructure.CsvReader.{RawInputMessage, CsvReader, ReadError, next}
use nda_takehome.Infrastructure.CsvWriter.{Serializer}
use nda_takehome.Service.PendingTransaction.{Channel}
use nda_takehome.Service.State.{ServiceConfig, ServiceMessage}
use nda_takehome.Service.Snapshot.{Snapshot}
use nda_takehome.Service.Sequential.Outlook.{completions_of}
use nda_takehome.Pipeline.{Loader}
use nda_takehome.Pipeline.Tasks.{
  System, LoadTask, loading, loaded, waiting, load_row, load_end, load_bad, load_panicked, serve,
  main_completes, Step, no_signal_sender, is_loaded,
}
use nda_takehome.Pipeline.Tasks.Invariant.{Running}

module _ {W : Type 0} where
  -- The counting task has done nothing between the two states.
  abbrev pub CountsNothing : System W → System W → Type 0
  CountsNothing s s' =
      (s'.tally ≡ s.tally)
      × (s'.pipeline_transactions_ok ≡ s.pipeline_transactions_ok)
      × (s'.pipeline_transactions_failed ≡ s.pipeline_transactions_failed)

module _ {W : Type 0} (serializer : Serializer W) (build : Build) (tx_sx signal_sx : Channel)
    (config : ServiceConfig) (records : List (Option RawInputMessage)) (snapshot : Snapshot W) where
  abbrev Waits : System W → Type 0
  Waits = Running build tx_sx signal_sx config records snapshot

  -- A task other than the counting task can move.
  abbrev pub CanMove : System W → Type 0
  CanMove s = (s' : System W) × (Step serializer build tx_sx signal_sx s s' × CountsNothing s s')

  loading-CanMove :
      (s : System W) (l : Loader) (r : Outcome ReadError (Option InputMessage) × CsvReader)
      → s.main ≡ waiting
      → s.load ≡ loading l
      → s.service_end ≡ none
      → next build l.reader ≡ r
      → CanMove s
  loading-CanMove s l (ok none, reader) wait is_loading alive e =
      (_, ((wait, load_end is_loading alive e), (refl, refl, refl)))
  loading-CanMove s l (ok (some msg), reader) wait is_loading alive e =
      (_, ((wait, load_row is_loading alive e), (refl, refl, refl)))
  loading-CanMove s l (err failure, reader) wait is_loading alive e =
      (_, ((wait, load_bad is_loading e), (refl, refl, refl)))
  loading-CanMove s l (panicked, reader) wait is_loading alive e =
      (_, ((wait, load_panicked is_loading e), (refl, refl, refl)))

  main-CanMove :
      (s : System W) (signalled : Bool)
      → s.main ≡ waiting
      → contains signal_sx (s.service).completed ≡ signalled
      → (signalled || no_signal_sender s) ≡ true
      → CanMove s
  main-CanMove s signalled wait has e = (_, ((wait, main_completes has e refl), (refl, refl, refl)))

  -- With nothing left to be served, the signal has come or its sender is gone.
  served-CanMove :
      (s : System W) → s.main ≡ waiting → is_loaded s.load ≡ true → s.svc_queue ≡ [] → CanMove s
  served-CanMove s wait ended_load empty =
      let lost : no_signal_sender s ≡ true =
        ground (arith, ap (λ q. is_empty (completions_of q)) empty) in
      elim (Bool-cases (contains signal_sx (s.service).completed)) [
        | inl has ↦ main-CanMove s true wait has refl
        | inr has_not ↦ main-CanMove s false wait has_not lost
      ]

  pub Running-CanMove :
      (s : System W) (load : LoadTask) (queue : List ServiceMessage)
      → s.main ≡ waiting
      → s.load ≡ load
      → s.svc_queue ≡ queue
      → Waits s
      → CanMove s
  Running-CanMove s (loading l) queue wait is_loading same runs =
      loading-CanMove s l (next build l.reader) wait is_loading runs.alive refl
  Running-CanMove s (loaded r) (msg ∷ rest) wait ended_load same runs =
      (_, ((wait, serve runs.alive same refl), (refl, refl, refl)))
  Running-CanMove s (loaded r) [] wait ended_load same runs =
      served-CanMove s wait (ap is_loaded ended_load) same
