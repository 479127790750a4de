-- ===== src/Pipeline/RoundTrip.antt =====
-- Messages written as the rows of a file, and read back (src/infrastructure/csv_reader.rs and
-- `load_file` of src/main.rs).
use nda_takehome.Base.{
  ℕ, suc, ◌^◌, ◌<◌, true, Option, some, List, [], ◌∷◌, ◌++◌, length, ◌≡◌, refl, sym, ap, ◌∙◌, arith,
  subst, All,
}
use nda_takehome.Base.Outcome.{ok, err, Build}
use nda_takehome.Text.{Text}
use nda_takehome.Text.Numbers.{parse_unsigned, print, digits, digits_from}
use nda_takehome.Text.Digits.{IsDigit, digits_from-print, print-IsDigit, print-Starts}
use nda_takehome.Domain.Amount.{Amount, invalid_amount, parse, to_string, fits_i64}
use nda_takehome.Domain.Amount.RoundTrip.{parse-to_string}
use nda_takehome.Domain.Transaction.{otel_label}
use nda_takehome.Domain.Transaction.Labels.{from_str_iff}
use nda_takehome.Message.{InputMessage}
use nda_takehome.Infrastructure.CsvReader.{RawInputMessage, read_amount}
use nda_takehome.Infrastructure.CsvReader.Rows.{scan, row_message}
use nda_takehome.Service.State.{transaction_batch_completion}
use nda_takehome.Service.PendingTransaction.{Channel}
use nda_takehome.Pipeline.{load_file}
use nda_takehome.Pipeline.Loading.{incoming_all}
use nda_takehome.Pipeline.EndToEnd.{load_file_lem}

-- The row that says what the message says, but for its place.
abbrev pub row_of : InputMessage → RawInputMessage
row_of message = record {
  type = otel_label message.transaction_type;
  client = print message.client_id;
  tx = print message.transaction_id;
  amount = to_string message.amount;
}

abbrev pub rows_of : List InputMessage → List (Option RawInputMessage)
rows_of [] = []
rows_of (message ∷ messages) = some (row_of message) ∷ rows_of messages

-- The messages numbered by their places, the first in the place `n`.
abbrev pub numbered : ℕ → List InputMessage → List InputMessage
numbered n [] = []
numbered n (message ∷ messages) = record message { chrono_order = n } ∷ numbered (suc n) messages

-- The identifiers are of their types `u16` and `u32`, and the ten-thousandths fit an `i64`.
abbrev pub IsWritable : InputMessage → Type 0
IsWritable message =
    (message.client_id < 2 ^ 16)
    × (message.transaction_id < 2 ^ 32)
    × (fits_i64 message.amount ≡ true)

parse_unsigned-print : (most n : ℕ) → n < most → parse_unsigned most (print n) ≡ some n
unfolding parse_unsigned digits
parse_unsigned-print most n h =
    let (c, t, e) = print-Starts n in
    let all_digits = subst (All IsDigit) e (print-IsDigit n) in
    let value = ap (digits_from 0) (sym e) ∙ digits_from-print n in
    ap (parse_unsigned most) e ∙ ground (arith, all_digits.0, value, h)

parse_empty : (build : Build) → parse build [] ≡ err invalid_amount
unfolding parse
parse_empty build = refl

read_amount_ok :
    (build : Build) (s : Text) (a : Amount) → parse build s ≡ ok a → read_amount build s ≡ ok a
unfolding read_amount
read_amount_ok build [] a h = ground (arith, parse_empty build)
read_amount_ok build (c ∷ s) a h = rw h refl

row_message-row_of :
    (build : Build) (n : ℕ) (message : InputMessage)
    → IsWritable message
    → row_message build n (row_of message) ≡ ok (record message { chrono_order = n })
unfolding row_message
row_message-row_of build n message (client, tx, amount) =
    rw
      (
        (from_str_iff (otel_label message.transaction_type) message.transaction_type).1 refl,
        parse_unsigned-print (2 ^ 16) message.client_id client,
        parse_unsigned-print (2 ^ 32) message.transaction_id tx,
        read_amount_ok build (to_string message.amount) message.amount
            (parse-to_string build message.amount amount),
      )
      refl

scan-rows_of :
    (build : Build) (n : ℕ) (messages : List InputMessage)
    → All IsWritable messages
    → scan build n (rows_of messages) ≡ (numbered n messages, ok tt)
unfolding scan
scan-rows_of build n [] h = refl
scan-rows_of build n (message ∷ messages) (first, others) =
    rw (row_message-row_of build n message first, scan-rows_of build (suc n) messages others) refl

length-rows_of : (messages : List InputMessage) → length (rows_of messages) ≡ length messages
length-rows_of [] = refl
length-rows_of (message ∷ messages) = omega (arith, length-rows_of messages)

-- Whatever messages are written as the rows of a file, with the type as its label, the identifiers
-- in decimal and the amount as it is printed, `load_file` succeeds and sends these very messages, in
-- their order and numbered by their places, and then the completion signal, in either build. There
-- are fewer than 2^64 messages, the identifiers are within `u16` and `u32`, and the ten-thousandths
-- of the amounts fit an `i64`.
pub load_file-rows_of :
    (build : Build) (tx_sx signal_sx : Channel) (messages : List InputMessage)
    → All IsWritable messages
    → length messages < 2 ^ 64
    → load_file build tx_sx signal_sx (some (rows_of messages)) ≡ (
      ok tt,
      incoming_all tx_sx (numbered 0 messages) ++ transaction_batch_completion signal_sx ∷ [],
    )
load_file-rows_of build tx_sx signal_sx messages writable few =
    let sends =
      load_file_lem build tx_sx signal_sx (rows_of messages)
        (omega (arith, length-rows_of messages)) in
    sends ∙ rw (scan-rows_of build 0 messages writable) refl
