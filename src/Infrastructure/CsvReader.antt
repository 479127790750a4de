-- ===== src/Infrastructure/CsvReader.antt =====
-- src/infrastructure/csv_reader.rs: the messages of a file, one at a time. What the crate
-- `csv_async` makes of the file is a list, with `none` for a row that it cannot deserialize.
pub mod Rows
pub mod Next
use nda_takehome.Base.{
  ℕ, suc, ◌+◌, ◌^◌, ◌==◌, ⊤, Bool, true, false, Option, none, some, List, [], ◌∷◌, ltb,
  if◌then◌else◌, is_empty,
}
use nda_takehome.Base.Outcome.{Outcome, ok, err, panicked, Build, debug, release}
use nda_takehome.Base.Action.{Action, pure, gets, modify, lift, or_fail, ◌>>=◌, ◌>>◌}
use nda_takehome.Text.{Text}
use nda_takehome.Text.Numbers.{parse_unsigned}
use nda_takehome.Domain.Amount.{Amount, ParseError, invalid_amount, parse}
use nda_takehome.Domain.Amount
use nda_takehome.Domain.Transaction.{TransactionType, from_str}
use nda_takehome.Message.{InputMessage}

pub record RawInputMessage : Type 0 where
  pub type : Text
  pub client : Text
  pub tx : Text
  pub amount : Text

pub data ReadError : Type 0 where
  not_opened not_deserialized : ReadError
  invalid_type : Text → ReadError
  invalid_client invalid_transaction : ReadError
  bad_amount : ParseError → ReadError

-- `CsvReader`, with what it records in the two counters.
pub record CsvReader : Type 0 where
  pub records : List (Option RawInputMessage)
  pub chrono_order : ℕ
  pub done : Bool
  pub csv_parse_errors : ℕ
  pub csv_rows_parsed : ℕ

-- `CsvReader::new` behind the counter: `none` is a file that cannot be opened.
abbrev open_file : Option (List (Option RawInputMessage)) → Outcome ReadError CsvReader
open_file none = err not_opened
open_file (some records) = ok (record {
  records = records;
  chrono_order = 0;
  done = false;
  csv_parse_errors = 0;
  csv_rows_parsed = 0;
})

-- `CsvReader::new`; the state is the counter `csv_files_loaded`.
abbrev pub new : Option (List (Option RawInputMessage)) → Action ℕ ReadError CsvReader
new file csv_files_loaded = (open_file file, csv_files_loaded + 1)

abbrev pub ReaderAction : Type 0 → Type 0
ReaderAction A = Action CsvReader ReadError A

abbrev amount_error : Outcome ParseError Amount → Outcome ReadError Amount
amount_error (ok a) = ok a
amount_error (err e) = err (bad_amount e)
amount_error panicked = panicked

-- `if record.amount.is_empty() { … } else { … }`
unfoldable pub read_amount : Build → Text → Outcome ReadError Amount
unfolding parse
read_amount build text =
    let parsed = amount_error (parse build text) in if is_empty text then ok Amount.zero else parsed

-- `self.chrono_order += 1` in `u64`
unfoldable pub next_order : Build → ℕ → Outcome ReadError ℕ
next_order build n =
    if ltb (suc n) (2 ^ 64) then ok (suc n) else elim build [ debug ↦ panicked | release ↦ ok 0 ]

-- The message of a row.
unfoldable pub read_record : Build → RawInputMessage → ReaderAction InputMessage
unfolding read_amount from_str parse_unsigned
read_record build row = do
  transaction_type ← or_fail (from_str row.type) (invalid_type row.type)
  client_id ← or_fail (parse_unsigned (2 ^ 16) row.client) invalid_client
  transaction_id ← or_fail (parse_unsigned (2 ^ 32) row.tx) invalid_transaction
  amount ← lift (read_amount build row.amount)
  chrono_order ← gets λ self. self.chrono_order
  next ← lift (next_order build chrono_order)
  modify λ self. record self { chrono_order = next }
  pure (record {
    chrono_order = chrono_order;
    transaction_type = transaction_type;
    client_id = client_id;
    transaction_id = transaction_id;
    amount = amount;
  })

abbrev finish : CsvReader → CsvReader
finish self = record self {
  csv_rows_parsed = self.csv_rows_parsed + self.chrono_order;
  done = true;
}

abbrev count_error : CsvReader → CsvReader
count_error self = record self { csv_parse_errors = self.csv_parse_errors + 1 }

-- `match self.records.next().await`, on the stream that the reader holds.
unfoldable pub next_record :
    Build → List (Option RawInputMessage) → ReaderAction (Option InputMessage)
unfolding read_record
next_record build [] = do modify finish; pure none
next_record build (none ∷ records) = do
  modify λ self. count_error (record self { records = records })
  lift (err not_deserialized)
next_record build (some row ∷ records) = do
  modify λ self. record self { records = records }
  message ← read_record build row
  pure (some message)

-- `CsvReader::next`
unfoldable pub next : Build → ReaderAction (Option InputMessage)
unfolding next_record
next build self = if self.done then (ok none, self) else next_record build self.records self
