-- ===== src/Pipeline/Tasks/Moves.antt =====
-- The moves of the loader, of the service and of the counting task (src/main.rs), while `main` waits.
use nda_takehome.Base.{
  ℕ, ⊤, Option, none, some, List, [], ◌∷◌, ◌++◌, ◌≡◌, refl, sym, ap, ◌∙◌, arith, subst,
  append_assoc, append-nil,
}
use nda_takehome.Base.Outcome.{Outcome, ok, err, panicked, Build}
use nda_takehome.Message.{InputMessage}
use nda_takehome.Infrastructure.CsvReader.{RawInputMessage, CsvReader, ReadError, next}
use nda_takehome.Infrastructure.CsvReader.Rows.{scan}
use nda_takehome.Service.PendingTransaction.{Channel}
use nda_takehome.Service.State.{
  ServiceConfig, new, ServiceMessage, incoming, transaction_batch_completion,
}
use nda_takehome.Service.Snapshot.{Snapshot}
use nda_takehome.Service.Sequential.Outlook.{OnTrack}
use nda_takehome.Pipeline.{Loader, send, count}
use nda_takehome.Pipeline.EndToEnd.{signal_of}
use nda_takehome.Pipeline.Tasks.{System, LoadTask, loading, loaded, read}
use nda_takehome.Pipeline.Tasks.Reads.{Reads, next-Reads}
use nda_takehome.Pipeline.Tasks.Invariant.{sends, coming, LeadsTo, Phase, Running}

module _ {W : Type 0} (build : Build) (tx_sx signal_sx : Channel) (config : ServiceConfig)
    (records : List (Option RawInputMessage)) (snapshot : Snapshot W) where
  abbrev Runs : System W → Type 0
  Runs = Running build tx_sx signal_sx config records snapshot

  abbrev result : Outcome ReadError ⊤
  result = (scan build 0 records).1

  -- What the loader has sent, it need not send any more.
  load-Running :
      (s : System W) (l : Loader) (load : LoadTask) (queue : List ServiceMessage) (enqueued : ℕ)
      → s.load ≡ loading l
      → LeadsTo build tx_sx signal_sx result load
      → queue ++ coming build tx_sx signal_sx load
        ≡ s.svc_queue ++ coming build tx_sx signal_sx (loading l)
      → Runs s
      → Runs (record s { load = load; svc_queue = queue; pipeline_messages_enqueued = enqueued })
  load-Running s l load queue enqueued is_loading leads same runs =
      let rest = same ∙ ap (λ t. s.svc_queue ++ coming build tx_sx signal_sx t) (sym is_loading) in
      record {
        alive = runs.alive;
        leads = leads;
        track =
            subst
              (λ rx.
                OnTrack build (sends tx_sx signal_sx (scan build 0 records)) rx (new config)
                  s.service)
              (sym rest) runs.track;
        phase = subst (λ rx. Phase build tx_sx signal_sx result rx s.service) (sym rest) runs.phase;
        idle = λ e. ground (arith, runs.idle e);
        unwritten = runs.unwritten;
      }

  -- The loader as it reads the rows that are left.
  pub reading :
      (s : System W) (l : Loader) (r : Outcome ReadError (Option InputMessage) × CsvReader)
      → s.load ≡ loading l
      → next build l.reader ≡ r
      → Runs s
      → Reads build l.reader r
        × ((scan build (l.reader).chrono_order (l.reader).records).1 ≡ result)
  reading s l r is_loading e runs =
      let (is_reading, leads) =
        subst (LeadsTo build tx_sx signal_sx result) is_loading runs.leads in
      (subst (Reads build l.reader) e (next-Reads build l.reader is_reading), leads)

  pub load_row-Running :
      (s : System W) (l : Loader) (msg : InputMessage) (reader : CsvReader)
      → s.load ≡ loading l
      → next build l.reader ≡ (ok (some msg), reader)
      → Runs s
      → Runs (record s {
        load = loading (send (incoming msg tx_sx) (count (record l { reader = reader })));
        svc_queue = s.svc_queue ++ incoming msg tx_sx ∷ [];
      })
  load_row-Running s l msg reader is_loading e runs =
      let ((scanned, is_reading, shorter), leads) =
        reading s l (ok (some msg), reader) is_loading e runs in
      let rest = sends tx_sx signal_sx (scan build reader.chrono_order reader.records) in
      load-Running s l (loading (send (incoming msg tx_sx) (count (record l { reader = reader }))))
        (s.svc_queue ++ incoming msg tx_sx ∷ []) s.pipeline_messages_enqueued is_loading
        (is_reading, sym (ap (λ p. p.1) scanned) ∙ leads)
        (append_assoc s.svc_queue (incoming msg tx_sx ∷ []) rest
          ∙ ap (λ p. s.svc_queue ++ sends tx_sx signal_sx p) (sym scanned))
        runs

  pub load_end-Running :
      (s : System W) (l : Loader) (reader : CsvReader) (enqueued : ℕ)
      → s.load ≡ loading l
      → next build l.reader ≡ (ok none, reader)
      → Runs s
      → Runs (record s {
        load = loaded (read (ok tt));
        pipeline_messages_enqueued = enqueued;
        svc_queue = s.svc_queue ++ transaction_batch_completion signal_sx ∷ [];
      })
  load_end-Running s l reader enqueued is_loading e runs =
      let (scanned, leads) = reading s l (ok none, reader) is_loading e runs in
      load-Running s l (loaded (read (ok tt)))
        (s.svc_queue ++ transaction_batch_completion signal_sx ∷ []) enqueued is_loading
        (ap read (sym (ap (λ p. p.1) scanned) ∙ leads))
        (append-nil (s.svc_queue ++ transaction_batch_completion signal_sx ∷ [])
          ∙ ap (λ p. s.svc_queue ++ sends tx_sx signal_sx p) (sym scanned))
        runs

  pub load_fail-Running :
      (s : System W) (l : Loader) (failure : Outcome ReadError ⊤)
      → s.load ≡ loading l
      → signal_of signal_sx failure ≡ []
      → scan build (l.reader).chrono_order (l.reader).records ≡ ([], failure)
      → (scan build (l.reader).chrono_order (l.reader).records).1 ≡ result
      → Runs s
      → Runs (record s { load = loaded (read failure) })
  load_fail-Running s l failure is_loading no_signal scanned leads runs =
      load-Running s l (loaded (read failure)) s.svc_queue s.pipeline_messages_enqueued is_loading
        (ap read (sym (ap (λ p. p.1) scanned) ∙ leads))
        (ap (λ rx. s.svc_queue ++ rx) (sym no_signal)
          ∙ ap (λ p. s.svc_queue ++ sends tx_sx signal_sx p) (sym scanned))
        runs

  pub load_bad-Running :
      (s : System W) (l : Loader) (e : ReadError) (reader : CsvReader)
      → s.load ≡ loading l
      → next build l.reader ≡ (err e, reader)
      → Runs s
      → Runs (record s { load = loaded (read (err e)) })
  load_bad-Running s l e reader is_loading is_err runs =
      let (scanned, leads) = reading s l (err e, reader) is_loading is_err runs in
      load_fail-Running s l (err e) is_loading refl scanned leads runs

  pub load_panicked-Running :
      (s : System W) (l : Loader) (reader : CsvReader)
      → s.load ≡ loading l
      → next build l.reader ≡ (panicked, reader)
      → Runs s
      → Runs (record s { load = loaded (read panicked) })
  load_panicked-Running s l reader is_loading is_panic runs =
      let (scanned, leads) = reading s l (panicked, reader) is_loading is_panic runs in
      load_fail-Running s l panicked is_loading refl scanned leads runs
