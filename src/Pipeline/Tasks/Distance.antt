-- ===== src/Pipeline/Tasks/Distance.antt =====
-- The tasks of `main` (src/main.rs): how far they are from the end.
use nda_takehome.Base.{
  ℕ, ◌+◌, ◌-◌, ◌*◌, ◌≤◌, ◌<◌, true, false, Bool, Option, some, List, [], ◌∷◌, ◌++◌, ◌≡◌, refl, ap,
  arith, length, length-append, lt-drop,
}
use nda_takehome.Base.Outcome.{ok, Build}
use nda_takehome.Infrastructure.CsvReader.{RawInputMessage}
use nda_takehome.Infrastructure.CsvReader.Rows.{scan}
use nda_takehome.Infrastructure.CsvWriter.{Serializer}
use nda_takehome.Service.PendingTransaction.{Channel, PendingTransaction}
use nda_takehome.Service.State.{ServiceConfig, incoming, transaction_batch_completion}
use nda_takehome.Service.Snapshot.{Snapshot}
use nda_takehome.Service.Sequential.{Accounts, run_sent, step_accounts}
use nda_takehome.Service.Sequential.Outlook.{incoming_of}
use nda_takehome.Pipeline.Tasks.{
  System, LoadTask, loading, loaded, is_waiting, load_row, load_end, load_bad, load_panicked,
  load_not_sent, serve, count_one, count_end, main_completes, main_runs_out, Step, is_loaded,
}
use nda_takehome.Pipeline.Tasks.Invariant.{sends, coming, Running}
use nda_takehome.Pipeline.Tasks.Moves.{reading}

length-run_sent :
    (build : Build) (txs : List PendingTransaction) (accounts : Accounts)
    → length (run_sent build txs accounts) ≡ length txs
unfolding run_sent
length-run_sent build [] accounts = refl
length-run_sent build (tx ∷ txs) accounts =
    omega (arith, length-run_sent build txs (step_accounts build tx.message accounts))

abbrev pub load_weight : LoadTask → ℕ
load_weight (loading l) = 2 + 2 * length (l.reader).records
load_weight (loaded r) = 0

abbrev pub weight : Bool → ℕ
weight true = 1
weight false = 0

module _ {W : Type 0} where
  -- How far the tasks are from their end, when `n` outcomes are to be counted.
  abbrev pub distance : ℕ → System W → ℕ
  distance n s =
      load_weight s.load
      + length s.svc_queue
      + (n - s.counted)
      + weight s.counting
      + weight (is_waiting s.main)

module _ {W : Type 0} (serializer : Serializer W) (build : Build) (tx_sx signal_sx : Channel)
    (config : ServiceConfig) (records : List (Option RawInputMessage)) (snapshot : Snapshot W) where
  abbrev pub Alive : System W → Type 0
  Alive = Running build tx_sx signal_sx config records snapshot

  abbrev pub outcomes : ℕ
  outcomes = length (incoming_of (sends tx_sx signal_sx (scan build 0 records)))

  length-sent : (s : System W) → Alive s → length (s.service).sent ≤ outcomes
  length-sent s runs =
      let rest =
        (s.service).ordered_messages
        ++ incoming_of (s.svc_queue ++ coming build tx_sx signal_sx s.load) in
      omega (
        arith,
        ap (λ o. length o.sent) (runs.track).same,
        length-append (s.service).sent (run_sent build rest (s.service).accounts),
        length-run_sent build (incoming_of (sends tx_sx signal_sx (scan build 0 records))) [],
      )

  -- Each move leads closer to the end.
  pub Step-closer :
      (s s' : System W)
      → Step serializer build tx_sx signal_sx s s'
      → Alive s
      → distance outcomes s' < distance outcomes s
  Step-closer s _ (wait, load_row {l} {msg} {reader} is_loading alive e) runs =
      let ((scanned, is_reading, shorter), leads) =
        reading build tx_sx signal_sx config records snapshot s l (ok (some msg), reader) is_loading
          e runs in
      omega (
        arith,
        shorter,
        ap load_weight is_loading,
        length-append s.svc_queue (incoming msg tx_sx ∷ []),
      )
  Step-closer s _ (wait, load_end {l} {reader} is_loading alive e) runs = omega (
    arith,
    ap load_weight is_loading,
    length-append s.svc_queue (transaction_batch_completion signal_sx ∷ []),
  )
  Step-closer s _ (wait, load_bad is_loading is_err) runs = omega (arith, ap load_weight is_loading)
  Step-closer s _ (wait, load_panicked is_loading is_panic) runs =
      omega (arith, ap load_weight is_loading)
  Step-closer s _ (wait, load_not_sent is_loading gone e) runs =
      omega (arith, ap load_weight is_loading)
  Step-closer s _ (wait, serve {msg} {rest} alive queue e) runs =
      omega (arith, ap (λ q. length q) queue)
  Step-closer s _ (wait, count_one {sent} {rest} counting more) runs =
      omega (arith, length-sent s runs, lt-drop s.counted sent (s.service).sent rest more)
  Step-closer s _ (wait, count_end counting no_more none_left) runs =
      omega (arith, ap weight counting)
  Step-closer s _ (wait, main_completes has lost e) runs =
      omega (arith, ap (λ m. weight (is_waiting m)) wait)
  Step-closer s _ (wait, main_runs_out is_loaded gone done) runs =
      omega (arith, ap (λ m. weight (is_waiting m)) wait)
