-- ===== src/Infrastructure/CsvWriter.antt =====
-- src/infrastructure/csv_writer.rs: the rows of the snapshot.
use nda_takehome.Base.{⊤, List, [], ◌∷◌, ◌++◌, ◌≡◌}
use nda_takehome.Base.Outcome.{Outcome, ok, err, panicked}
use nda_takehome.Base.Action.{Action}
use nda_takehome.Text.{codes}
use nda_takehome.Domain.Amount.{to_string}
use nda_takehome.Message.Output.{OutputMessage, Field, number, text, boolean}

-- A failure of the writer, by what the code was about.
pub data WriteError : Type 0 where
  header_failed record_failed flush_failed : WriteError

-- `csv_async::AsyncSerializer` over a writer `W`: a call says whether it succeeded.
pub record Serializer (W : Type 0) : Type 0 where
  pub serialize : List Field → W → Outcome ⊤ ⊤ × W
  pub flush : W → Outcome ⊤ ⊤ × W

-- What a serializer is documented to do while its sink takes what it is given: it writes one record
-- for each call, in their order.
pub record IsRecording {W : Type 0} (serializer : Serializer W) (rows : W → List (List Field))
    : Type 0 where
  pub serialized :
      (fields : List Field) (w : W)
      → ((serializer.serialize fields w).0 ≡ ok tt)
        × (rows (serializer.serialize fields w).1 ≡ rows w ++ fields ∷ [])
  pub flushed : (w : W) → ((serializer.flush w).0 ≡ ok tt) × (rows (serializer.flush w).1 ≡ rows w)

-- `.context(…)`
abbrev pub with_context : WriteError → Outcome ⊤ ⊤ → Outcome WriteError ⊤
with_context e (ok u) = ok u
with_context e (err u) = err e
with_context e panicked = panicked

abbrev pub header : List Field
header =
    text (codes "client")
    ∷ text (codes "available")
    ∷ text (codes "held")
    ∷ text (codes "total")
    ∷ text (codes "locked")
    ∷ []

unfoldable pub message_row : OutputMessage → List Field
unfolding to_string
message_row message =
    number message.client_id
    ∷ text (to_string message.available)
    ∷ text (to_string message.held)
    ∷ text (to_string message.total)
    ∷ boolean message.locked
    ∷ []

module _ {W : Type 0} (serializer : Serializer W) where
  -- `CsvWriter::write_header`
  unfoldable pub write_header : Action W WriteError ⊤
  write_header w =
      let (result, w') = serializer.serialize header w in (with_context header_failed result, w')

  -- `CsvWriter::write_message`
  unfoldable pub write_message : OutputMessage → Action W WriteError ⊤
  unfolding message_row
  write_message message w =
      let (result, w') = serializer.serialize (message_row message) w in
      (with_context record_failed result, w')

  -- `CsvWriter::flush`
  unfoldable pub flush : Action W WriteError ⊤
  flush w = let (result, w') = serializer.flush w in (with_context flush_failed result, w')
