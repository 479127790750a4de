-- ===== src/Pipeline/EndToEnd.antt =====
-- From the file to the accounts: what `load_file` of src/main.rs sends, and what the service makes of
-- it.
use mathlib.Core.Path.{ap₂}
use nda_takehome.Base.{
  ℕ, suc, ◌+◌, ◌^◌, ◌<◌, ⊤, true, false, Option, some, List, [], ◌∷◌, ◌++◌, length, ◌≡◌, refl, sym,
  ap, ◌∙◌, arith, subst, append-nil, All,
}
use nda_takehome.Base.Outcome.{Outcome, ok, err, panicked, Build}
use nda_takehome.Base.Action.{◌>>◌, modify}
use nda_takehome.Collections.Heap.{is_greater}
use nda_takehome.Message.{InputMessage}
use nda_takehome.Message
use nda_takehome.Infrastructure.CsvReader.{RawInputMessage, CsvReader, ReadError}
use nda_takehome.Infrastructure.CsvReader.Rows.{scan, NumberedFrom, scan-NumberedFrom}
use nda_takehome.Service.State.{
  Receivers, ServiceConfig, new, ServiceMessage, transaction_batch_completion,
}
use nda_takehome.Service.PendingTransaction.{Channel, PendingTransaction, cmp}
use nda_takehome.Service.Engine.{server_forever}
use nda_takehome.Service.Sequential.{run_accounts, run_sent}
use nda_takehome.Service.Sequential.Pending.{AllOpen}
use nda_takehome.Service.Sequential.Outlook.{InOrder, incoming_of, completions_of}
use nda_takehome.Service.Sequential.Server.{server_forever_lem}
use nda_takehome.Pipeline.{Loader, LoaderAction, load_rows, load_from, load_file, loader, send}
use nda_takehome.Pipeline.Loading.{load_rows_lem, incoming_all}

-- The signal at the end of the file.
abbrev pub signal_of : Channel → Outcome ReadError ⊤ → List ServiceMessage
signal_of signal_sx (ok _) = transaction_batch_completion signal_sx ∷ []
signal_of signal_sx (err e) = []
signal_of signal_sx panicked = []

-- The end of `load_file`, after the loop.
abbrev complete : Channel → LoaderAction ⊤
complete signal_sx = do
  modify λ self. record self {
    pipeline_messages_enqueued = self.pipeline_messages_enqueued + self.msg_count;
  }
  modify (send (transaction_batch_completion signal_sx))

complete_after :
    (signal_sx : Channel) (start : Loader) (p : Outcome ReadError ⊤ × Loader)
    → let end = ((λ (_ : Loader). p) >> complete signal_sx) start in
      (end.0 ≡ p.0) × (end.1.enqueued ≡ p.1.enqueued ++ signal_of signal_sx p.0)
complete_after signal_sx start (ok u, self) = (refl, refl)
complete_after signal_sx start (err e, self) = (refl, sym (append-nil self.enqueued))
complete_after signal_sx start (panicked, self) = (refl, sym (append-nil self.enqueued))

-- `load_file` sends the messages of the file up to the first bad row, in the order of the file and
-- each numbered by its place, and then the completion signal exactly if there is no bad row; its
-- result says which bad row came first. The file has fewer than 2^64 rows.
pub load_file_lem :
    (build : Build) (tx_sx signal_sx : Channel) (records : List (Option RawInputMessage))
    → length records < 2 ^ 64
    → let (messages, result) = scan build 0 records in
      load_file build tx_sx signal_sx (some records)
      ≡ (result, incoming_all tx_sx messages ++ signal_of signal_sx result)
unfolding load_from
load_file_lem build tx_sx signal_sx records h =
    let reader : CsvReader = record {
      records = records;
      chrono_order = 0;
      done = false;
      csv_parse_errors = 0;
      csv_rows_parsed = 0;
    } in
    let loads =
      load_rows_lem build tx_sx (suc (length records)) records reader (loader reader) refl
        (omega arith) (omega arith) refl in
    let (same_result, same_enqueued) =
      complete_after signal_sx (loader reader)
        (load_rows build tx_sx (suc (length records)) (loader reader)) in
    ap₂ (λ result enqueued. (result, enqueued)) (same_result ∙ loads.result)
      (same_enqueued
        ∙ ap₂ (λ enqueued result. enqueued ++ signal_of signal_sx result) loads.enqueued
            loads.result)

-- The messages of the file as the service buffers them.
abbrev pub pending_all : Channel → List InputMessage → List PendingTransaction
pending_all c [] = []
pending_all c (m ∷ ms) = (record { message = m; callback = c }) ∷ pending_all c ms

pub incoming_of_all :
    (c signal_sx : Channel) (messages : List InputMessage) (result : Outcome ReadError ⊤)
    → incoming_of (incoming_all c messages ++ signal_of signal_sx result) ≡ pending_all c messages
incoming_of_all c signal_sx [] (ok u) = refl
incoming_of_all c signal_sx [] (err e) = refl
incoming_of_all c signal_sx [] panicked = refl
incoming_of_all c signal_sx (m ∷ ms) result =
    ap (λ txs. (record { message = m; callback = c }) ∷ txs) (incoming_of_all c signal_sx ms result)

-- The confirmations that the end of the file asks for.
abbrev pub confirmed : Channel → Outcome ReadError ⊤ → List Channel
confirmed signal_sx (ok _) = signal_sx ∷ []
confirmed signal_sx (err e) = []
confirmed signal_sx panicked = []

pub completions_of_all :
    (c signal_sx : Channel) (messages : List InputMessage) (result : Outcome ReadError ⊤)
    → completions_of (incoming_all c messages ++ signal_of signal_sx result)
      ≡ confirmed signal_sx result
completions_of_all c signal_sx [] (ok u) = refl
completions_of_all c signal_sx [] (err e) = refl
completions_of_all c signal_sx [] panicked = refl
completions_of_all c signal_sx (m ∷ ms) result = completions_of_all c signal_sx ms result

earlier_greater :
    (c : Channel) (m m' : InputMessage)
    → m.chrono_order < m'.chrono_order
    → is_greater cmp (record { message = m; callback = c }) (record { message = m'; callback = c })
      ≡ true
unfolding cmp Message.cmp
earlier_greater c m m' h = ground arith

later_greater :
    (c : Channel) (m : InputMessage) (n : ℕ) (ms : List InputMessage)
    → m.chrono_order < n
    → NumberedFrom n ms
    → All (λ tx. is_greater cmp (record { message = m; callback = c }) tx ≡ true) (pending_all c ms)
later_greater c m n [] h numbered = tt
later_greater c m n (m' ∷ ms) h numbered = (
  earlier_greater c m m' (omega (arith, numbered.0)),
  later_greater c m (suc n) ms (omega arith) numbered.1,
)

pub NumberedFrom-InOrder :
    (c : Channel) (n : ℕ) (ms : List InputMessage) → NumberedFrom n ms → InOrder (pending_all c ms)
NumberedFrom-InOrder c n [] numbered = tt
NumberedFrom-InOrder c n (m ∷ ms) numbered = (
  later_greater c m (suc n) ms (omega (arith, numbered.0)) numbered.1,
  NumberedFrom-InOrder c (suc n) ms numbered.1,
)

-- From the file to the accounts. Whatever the batch size, when the receivers stay, the service that
-- gets what `load_file` sends for a file of fewer than 2^64 rows returns normally, and its accounts
-- and outcomes are those of the messages before the first bad row, processed one after the other
-- from no accounts at all. It confirms the end of the file exactly if there is no bad row, which is
-- also when `load_file` returns `Ok`.
pub load_and_serve :
    (build : Build) (receivers : Receivers) (all_open : AllOpen receivers) (config : ServiceConfig)
    (tx_sx signal_sx : Channel) (records : List (Option RawInputMessage))
    → length records < 2 ^ 64
    → let (messages, result) = scan build 0 records in
      let (loaded, rx) = load_file build tx_sx signal_sx (some records) in
      let (served, self) = server_forever build receivers rx (new config) in
      (loaded ≡ result)
      × (served ≡ ok tt)
      × (self.accounts ≡ run_accounts build (pending_all tx_sx messages) [])
      × (self.sent ≡ run_sent build (pending_all tx_sx messages) [])
      × (self.completed ≡ confirmed signal_sx result)
load_and_serve build receivers all_open config tx_sx signal_sx records h =
    let (messages, result) = scan build 0 records in
    let rx = incoming_all tx_sx messages ++ signal_of signal_sx result in
    let same = incoming_of_all tx_sx signal_sx messages result in
    let (good, emptied, accounts, sent, completed) =
      server_forever_lem build receivers all_open config rx (
        subst InOrder (sym same)
          (NumberedFrom-InOrder tx_sx 0 messages (scan-NumberedFrom build 0 records))) in
    subst {A = Outcome ReadError ⊤ × List ServiceMessage}
      (λ (loaded, rx).
        let (served, self) = server_forever build receivers rx (new config) in
        (loaded ≡ result)
        × (served ≡ ok tt)
        × (self.accounts ≡ run_accounts build (pending_all tx_sx messages) [])
        × (self.sent ≡ run_sent build (pending_all tx_sx messages) [])
        × (self.completed ≡ confirmed signal_sx result))
      (sym (load_file_lem build tx_sx signal_sx records h))
      (
        refl,
        good,
        accounts ∙ ap (λ txs. run_accounts build txs []) same,
        sent ∙ ap (λ txs. run_sent build txs []) same,
        completed ∙ completions_of_all tx_sx signal_sx messages result,
      )
