-- ===== src/Pipeline/Tasks.antt =====
-- The tasks of `main` (src/main.rs) side by side: the loader, the service, the task that counts the
-- outcomes and `main` itself, and the channels between them. A move is what one task does between
-- two waits; a schedule picks the task that moves next.
pub mod Reads
pub mod Invariant
pub mod Moves
pub mod Serving
pub mod Ending
pub mod Schedules
pub mod Distance
pub mod Progress
pub mod Liveness
use nda_takehome.Base.{
  ℕ, suc, ◌+◌, ⊤, Bool, true, false, Option, none, some, List, [], ◌∷◌, ◌++◌, ◌≡◌, ◌||◌, ◌&&◌,
  is_empty, drop,
}
use nda_takehome.Base.Outcome.{Outcome, ok, err, panicked, Build}
use nda_takehome.Collections.{contains}
use nda_takehome.Message.{InputMessage}
use nda_takehome.Infrastructure.CsvReader.{RawInputMessage, CsvReader, ReadError, next}
use nda_takehome.Infrastructure.CsvReader
use nda_takehome.Infrastructure.CsvWriter.{Serializer}
use nda_takehome.Service.PendingTransaction.{Channel}
use nda_takehome.Service.State.{
  Server, Receivers, ServiceConfig, ServiceError, Sent, ServiceMessage, incoming,
  transaction_batch_completion, new,
}
use nda_takehome.Service.Engine.{iteration, tick}
use nda_takehome.Service.Snapshot.{Snapshot}
use nda_takehome.Service.Sequential.Outlook.{incoming_of, completions_of}
use nda_takehome.Pipeline.{Loader, loader, send, count}
use nda_takehome.Pipeline.Outcomes.{Tally, no_outcomes, count_outcome}
use nda_takehome.Pipeline.Run.{MainError, signal_dropped, on_completion}

-- How the task of the loader has ended: with what it has read, or since the service was gone.
pub data LoadEnd : Type 0 where
  read : Outcome ReadError ⊤ → LoadEnd
  not_sent : LoadEnd

pub data LoadTask : Type 0 where
  loading : Loader → LoadTask
  loaded : LoadEnd → LoadTask

pub data MainTask : Type 0 where
  waiting : MainTask
  ended : Outcome MainError ⊤ → MainTask

-- The tasks and their channels. The outcomes that the service has sent are in its state, and the
-- counting task has taken the first `counted` of them.
pub record System (W : Type 0) : Type 0 where
  pub load : LoadTask
  pub pipeline_messages_enqueued : ℕ
  pub svc_queue : List ServiceMessage
  pub service : Server
  -- how the task of the service has ended, if it has
  pub service_end : Option (Outcome ServiceError ⊤)
  pub counting : Bool
  pub counted : ℕ
  pub tally : Tally
  pub pipeline_transactions_ok : ℕ
  pub pipeline_transactions_failed : ℕ
  pub main : MainTask
  pub snapshot : Snapshot W

abbrev pub is_loaded : LoadTask → Bool
is_loaded (loading l) = false
is_loaded (loaded r) = true

abbrev pub is_waiting : MainTask → Bool
is_waiting waiting = true
is_waiting (ended r) = false

abbrev pub is_ended : Option (Outcome ServiceError ⊤) → Bool
is_ended none = false
is_ended (some r) = true

-- The service goes on after a message that it has processed.
abbrev pub ending : Outcome ServiceError ⊤ → Option (Outcome ServiceError ⊤)
ending (ok u) = none
ending (err e) = some (err e)
ending panicked = some panicked

abbrev pub opened : Outcome ReadError CsvReader → LoadTask
opened (ok reader) = loading (loader reader)
opened (err e) = loaded (read (err e))
opened panicked = loaded (read panicked)

module _ {W : Type 0} where
  -- The receiver of the outcomes is there until the counting task ends, that of the signal until
  -- `main` ends.
  abbrev pub receivers_of : System W → Receivers
  receivers_of s = record {
    callback_open = λ c sent. s.counting;
    completion_open = λ c sent. is_waiting s.main;
  }

  -- `tx_rx.recv()` gives `None` when no sender is left: the loader has ended, and no message with a
  -- sender is in the queue or in the buffer, or the service has ended and dropped them.
  abbrev pub no_sender : System W → Bool
  no_sender s =
      is_loaded s.load
      && (is_ended s.service_end
          || (is_empty (incoming_of s.svc_queue) && is_empty (s.service).ordered_messages))

  -- The sender of the signal is gone: the loader has ended, and the completion message is not in
  -- the queue, or the service has ended and dropped it.
  abbrev pub no_signal_sender : System W → Bool
  no_signal_sender s =
      is_loaded s.load && (is_ended s.service_end || is_empty (completions_of s.svc_queue))

  abbrev pub init : ServiceConfig → Option (List (Option RawInputMessage)) → Snapshot W → System W
  init config file snapshot = record {
    load = opened (CsvReader.new file 0).0;
    pipeline_messages_enqueued = 0;
    svc_queue = [];
    service = new config;
    service_end = none;
    counting = true;
    counted = 0;
    tally = no_outcomes;
    pipeline_transactions_ok = 0;
    pipeline_transactions_failed = 0;
    main = waiting;
    snapshot = snapshot;
  }

module _ {W : Type 0} (serializer : Serializer W) (build : Build) (tx_sx signal_sx : Channel) where
  -- What one task does next.
  pub data Move (s : System W) : System W → Type 0 where
    -- `load_file`: a message is read and sent.
    load_row :
        {l : Loader} {msg : InputMessage} {reader : CsvReader}
        → s.load ≡ loading l
        → s.service_end ≡ none
        → next build l.reader ≡ (ok (some msg), reader)
        → Move s (record s {
          load = loading (send (incoming msg tx_sx) (count (record l { reader = reader })));
          svc_queue = s.svc_queue ++ incoming msg tx_sx ∷ [];
        })
    -- `load_file`: the file is at its end, and the completion is sent.
    load_end :
        {l : Loader} {reader : CsvReader}
        → s.load ≡ loading l
        → s.service_end ≡ none
        → next build l.reader ≡ (ok none, reader)
        → Move s (record s {
          load = loaded (read (ok tt));
          pipeline_messages_enqueued = s.pipeline_messages_enqueued + l.msg_count;
          svc_queue = s.svc_queue ++ transaction_batch_completion signal_sx ∷ [];
        })
    -- `load_file`: a bad row ends the loader, and the sender of the signal is dropped.
    load_bad :
        {l : Loader} {e : ReadError} {reader : CsvReader}
        → s.load ≡ loading l
        → next build l.reader ≡ (err e, reader)
        → Move s (record s { load = loaded (read (err e)) })
    load_panicked :
        {l : Loader} {reader : CsvReader}
        → s.load ≡ loading l
        → next build l.reader ≡ (panicked, reader)
        → Move s (record s { load = loaded (read panicked) })
    -- `load_file`: the service is gone.
    load_not_sent :
        {l : Loader} {found : Option InputMessage} {reader : CsvReader} {r : Outcome ServiceError ⊤}
        → s.load ≡ loading l
        → s.service_end ≡ some r
        → next build l.reader ≡ (ok found, reader)
        → Move s (record s {
          load = loaded not_sent;
          pipeline_messages_enqueued =
              s.pipeline_messages_enqueued + (elim found [ none ↦ l.msg_count | some msg ↦ 0 ]);
        })
    -- `Service::server_forever`: a message is received.
    serve :
        {msg : ServiceMessage} {rest : List ServiceMessage} {result : Outcome ServiceError ⊤}
        {service : Server}
        → s.service_end ≡ none
        → s.svc_queue ≡ msg ∷ rest
        → iteration build (receivers_of s) msg (tick s.service) ≡ (result, service)
        → Move s (record s { svc_queue = rest; service = service; service_end = ending result })
    -- The counting task takes an outcome.
    count_one :
        {sent : Sent} {rest : List Sent}
        → s.counting ≡ true
        → drop s.counted (s.service).sent ≡ sent ∷ rest
        → Move s
            (record s { counted = suc s.counted; tally = count_outcome sent sent.result s.tally })
    -- The counting task ends, and records its counters.
    count_end :
        s.counting ≡ true
        → drop s.counted (s.service).sent ≡ []
        → no_sender s ≡ true
        → Move s (record s {
          counting = false;
          pipeline_transactions_ok = s.pipeline_transactions_ok + (s.tally).ok_count;
          pipeline_transactions_failed = s.pipeline_transactions_failed + (s.tally).err_count;
        })
    -- `main`: the signal has come, or its sender is gone.
    main_completes :
        {signalled : Bool} {result : Outcome MainError ⊤} {snapshot : Snapshot W}
        → contains signal_sx (s.service).completed ≡ signalled
        → (signalled || no_signal_sender s) ≡ true
        → on_completion serializer signalled (s.service).accounts s.snapshot ≡ (result, snapshot)
        → Move s (record s { main = ended result; snapshot = snapshot })
    -- `main`: all tasks have ended.
    main_runs_out :
        {r : LoadEnd} {r' : Outcome ServiceError ⊤}
        → s.load ≡ loaded r
        → s.service_end ≡ some r'
        → s.counting ≡ false
        → Move s (record s { main = ended (ok tt) })

  -- The process ends with `main`.
  abbrev pub Step : System W → System W → Type 0
  Step s s' = (s.main ≡ waiting) × Move s s'

  -- The states that a schedule leads to from `start`.
  pub data Reach (start : System W) : System W → Type 0 where
    begin : Reach start start
    later : {s s' : System W} → Reach start s → Step s s' → Reach start s'

  -- Every schedule comes to a state of `P`: while it has not, there is a task that can move, and
  -- each move leads closer.
  pub data Inevitable (P : System W → Type 0) : System W → Type 0 where
    now : {s : System W} → P s → Inevitable P s
    soon :
        {s : System W} (s' : System W)
        → Step s s'
        → ((s'' : System W) → Step s s'' → Inevitable P s'')
        → Inevitable P s
