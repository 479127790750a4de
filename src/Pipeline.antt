-- ===== src/Pipeline.antt =====
-- src/main.rs: the loader of the file and the service behind it.
pub mod Loading
pub mod EndToEnd
pub mod Outcomes
pub mod RoundTrip
pub mod Run
pub mod Termination
pub mod Tasks
use nda_takehome.Base.{
  ℕ, zero, suc, ◌+◌, ⊤, Bool, true, false, Option, none, some, List, [], ◌∷◌, ◌++◌, length,
  if◌then◌else◌,
}
use nda_takehome.Base.Outcome.{Outcome, ok, err, panicked, Build}
use nda_takehome.Base.Action.{Action, pure, gets, modify, lift, ◌>>=◌, ◌>>◌}
use nda_takehome.Message.{InputMessage}
use nda_takehome.Infrastructure.CsvReader.{RawInputMessage, CsvReader, ReadError, next}
use nda_takehome.Infrastructure.CsvReader
use nda_takehome.Service.State.{ServiceMessage, incoming, transaction_batch_completion}
use nda_takehome.Service.PendingTransaction.{Channel}

-- The state of `load_file`: its reader, its counters, and what its callbacks have sent to the
-- service.
pub record Loader : Type 0 where
  pub reader : CsvReader
  pub msg_count : ℕ
  pub pipeline_messages_enqueued : ℕ
  pub enqueued : List ServiceMessage

abbrev pub LoaderAction : Type 0 → Type 0
LoaderAction A = Action Loader ReadError A

-- `reader.next()`
unfoldable pub read_next : Build → LoaderAction (Option InputMessage)
unfolding next
read_next build self =
    let (result, reader) = next build self.reader in (result, record self { reader = reader })

-- `sx.send(…)`: the service holds the receiver until the loader has ended.
abbrev pub send : ServiceMessage → Loader → Loader
send msg self = record self { enqueued = self.enqueued ++ msg ∷ [] }

abbrev pub count : Loader → Loader
count self = record self { msg_count = self.msg_count + 1 }

-- `while let Some(msg) = reader.next().await?`; the fuel is more than the number of the rows.
unfoldable pub load_rows : Build → Channel → ℕ → LoaderAction ⊤
unfolding read_next
load_rows build tx_sx zero = pure tt
load_rows build tx_sx (suc fuel) = do
  let rest = load_rows build tx_sx fuel
  message ← read_next build
  elim message [
    | none ↦ pure tt
    | some msg ↦ (do modify count; modify (send (incoming msg tx_sx)); rest)
  ]

-- `load_file`, from the reader on, with the callbacks that `main` gives it.
unfoldable pub load_from : Build → Channel → Channel → LoaderAction ⊤
unfolding load_rows
load_from build tx_sx signal_sx = do
  rows ← gets (λ self. length (self.reader).records)
  load_rows build tx_sx (suc rows)
  modify λ self. record self {
    pipeline_messages_enqueued = self.pipeline_messages_enqueued + self.msg_count;
  }
  modify (send (transaction_batch_completion signal_sx))

abbrev pub loader : CsvReader → Loader
loader reader = record {
  reader = reader;
  msg_count = 0;
  pipeline_messages_enqueued = 0;
  enqueued = [];
}

abbrev pub load_opened :
    Build
    → Channel
    → Channel
    → Outcome ReadError CsvReader
    → Outcome ReadError ⊤ × List ServiceMessage
load_opened build tx_sx signal_sx (ok reader) =
    let (result, self) = load_from build tx_sx signal_sx (loader reader) in (result, self.enqueued)
load_opened build tx_sx signal_sx (err e) = (err e, [])
load_opened build tx_sx signal_sx panicked = (panicked, [])

-- `load_file`: its result and the messages that it has sent to the service.
abbrev pub load_file :
    Build
    → Channel
    → Channel
    → Option (List (Option RawInputMessage))
    → Outcome ReadError ⊤ × List ServiceMessage
load_file build tx_sx signal_sx file = load_opened build tx_sx signal_sx (CsvReader.new file 0).0
