-- ===== src/Infrastructure/CsvReader/Next.antt =====
-- `CsvReader::next`, by the row that comes next.
use nda_takehome.Base.{
  suc, ◌^◌, ◌<◌, false, Option, none, some, List, ◌∷◌, ◌≡◌, refl, ap, ◌∙◌, if◌then◌else◌,
}
use nda_takehome.Base.Outcome.{Outcome, ok, err, panicked, Build}
use nda_takehome.Base.Action.{◌>>=◌, pure}
use nda_takehome.Message.{InputMessage}
use nda_takehome.Infrastructure.CsvReader.{
  RawInputMessage, CsvReader, ReadError, ReaderAction, next, next_record,
}
use nda_takehome.Infrastructure.CsvReader.Rows.{row_message, after_row, read_record_lem}

abbrev pub some_message : Outcome ReadError InputMessage → Outcome ReadError (Option InputMessage)
some_message (ok message) = ok (some message)
some_message (err e) = err e
some_message panicked = panicked

abbrev bind_message : ReaderAction InputMessage → ReaderAction (Option InputMessage)
bind_message m = m >>= λ message. pure (some message)

next_some_bind :
    (result : Outcome ReadError InputMessage) (self : CsvReader)
    → bind_message (λ _. (result, after_row result self)) self
      ≡ (some_message result, after_row result self)
next_some_bind (ok message) self = refl
next_some_bind (err e) self = refl
next_some_bind panicked self = refl

pub next_open :
    (build : Build) (self : CsvReader)
    → self.done ≡ false
    → next build self ≡ next_record build self.records self
unfolding next
next_open build self e =
    ap (λ closed. if closed then (ok none, self) else next_record build self.records self) e

-- `CsvReader::next` before a row that could be deserialized: the row is gone in any case, and its
-- place is taken if it is a message.
pub next-some :
    (build : Build) (row : RawInputMessage) (rows : List (Option RawInputMessage))
    (base : CsvReader)
    → suc base.chrono_order < 2 ^ 64
    → base.done ≡ false
    → let self = record base { records = some row ∷ rows } in
      let result = row_message build base.chrono_order row in
      next build self ≡ (some_message result, after_row result (record base { records = rows }))
unfolding next_record
next-some build row rows base h e =
    let rest : CsvReader = record base { records = rows } in
    next_open build (record base { records = some row ∷ rows }) e
    ∙ ap (λ p. bind_message (λ _. p) rest) (read_record_lem build row rest h)
    ∙ next_some_bind (row_message build base.chrono_order row) rest
