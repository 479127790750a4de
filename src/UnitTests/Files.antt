-- ===== src/UnitTests/Files.antt =====
-- The tests of src/infrastructure/csv_reader.rs. A file is given by the rows that `csv_async` makes
-- of it, without its header and with the fields trimmed.
use nda_takehome.Base.{
  ℕ, zero, suc, Bool, true, false, ◌&&◌, ◌==◌, Option, none, some, List, [], ◌∷◌, length, String,
}
use nda_takehome.Base.Int.{pos, eq_ℤ}
use nda_takehome.Base.Outcome.{Outcome, ok, err, panicked, debug}
use nda_takehome.Base.Action.{pure, ◌>>=◌}
use nda_takehome.Text.{codes}
use nda_takehome.Domain.Amount.{Amount, from_scaled}
use nda_takehome.Domain.Amount
use nda_takehome.Domain.Transaction.{
  ClientId, TransactionId, TransactionType, deposit, withdrawal, dispute, resolve, chargeback,
}
use nda_takehome.Message.{InputMessage}
use nda_takehome.Infrastructure.CsvReader.{
  RawInputMessage, CsvReader, ReadError, ReaderAction, next,
}
use nda_takehome.Infrastructure.CsvReader
use nda_takehome.UnitTests.{is_major}
use nda_takehome.UnitTests.Amounts.{parses}

-- `while let Some(msg) = reader.next().await?`; the fuel is more than the number of the rows.
unfoldable pub read_all : ℕ → ReaderAction (List InputMessage)
unfolding next
read_all zero = pure []
read_all (suc fuel) = do
  let rest = read_all fuel
  message ← next debug
  elim message [ none ↦ pure [] | some msg ↦ (do messages ← rest; pure (msg ∷ messages)) ]

abbrev deserialized : List RawInputMessage → List (Option RawInputMessage)
deserialized [] = []
deserialized (row ∷ rows) = some row ∷ deserialized rows

-- `read_csv`, on the rows of the content
unfoldable pub read_csv : List RawInputMessage → Outcome ReadError (List InputMessage)
unfolding read_all
read_csv rows = elim (CsvReader.new (some (deserialized rows)) 0).0 [
  | ok reader ↦ (read_all (suc (length rows)) reader).0
  | err e ↦ err e
  | panicked ↦ panicked
]

abbrev row : String → String → String → String → RawInputMessage
row type client tx amount = record {
  type = codes type;
  client = codes client;
  tx = codes tx;
  amount = codes amount;
}

-- `read_csv(…).await.expect(…)`, and the assertions on the messages
abbrev reads : List RawInputMessage → (List InputMessage → Bool) → Bool
reads rows test = elim (read_csv rows) [ ok ms ↦ test ms | err e ↦ false | panicked ↦ false ]

abbrev all_zero : List InputMessage → Bool
all_zero [] = true
all_zero (msg ∷ messages) = eq_ℤ msg.amount Amount.zero && all_zero messages

-- `#[derive(PartialEq)]` of `TransactionType`, by the place of the variant.
abbrev type_code : TransactionType → ℕ
type_code deposit = 0
type_code withdrawal = 1
type_code dispute = 2
type_code resolve = 3
type_code chargeback = 4

-- The amounts of the messages, in whole units.
abbrev amounts_are : List ℕ → List InputMessage → Bool
amounts_are [] [] = true
amounts_are (units ∷ rest) (msg ∷ messages) =
    is_major msg.amount (pos units) && amounts_are rest messages
amounts_are _ _ = false

abbrev orders_are : List ℕ → List InputMessage → Bool
orders_are [] [] = true
orders_are (n ∷ rest) (msg ∷ messages) = (msg.chrono_order == n) && orders_are rest messages
orders_are _ _ = false

abbrev is_single : TransactionType → ClientId → TransactionId → List InputMessage → Bool
is_single type client tx (msg ∷ []) =
    (type_code msg.transaction_type == type_code type)
    && (msg.client_id == client)
    && (msg.transaction_id == tx)
    && eq_ℤ msg.amount Amount.zero
is_single type client tx _ = false

abbrev without_amounts : List RawInputMessage
without_amounts =
    row "dispute" "1" "1" "" ∷ row "resolve" "1" "1" "" ∷ row "chargeback" "1" "1" "" ∷ []

unfoldable pub test_empty_amount_field_is_zero : Bool
unfolding read_csv
test_empty_amount_field_is_zero =
    reads without_amounts λ messages. (length messages == 3) && all_zero messages

unfoldable pub test_dispute_empty_amount_parses_transaction_fields : Bool
unfolding read_csv
test_dispute_empty_amount_parses_transaction_fields =
    reads (row "dispute" "42" "99" "" ∷ []) (is_single dispute 42 99)

unfoldable pub test_resolve_empty_amount_parses_transaction_fields : Bool
unfolding read_csv
test_resolve_empty_amount_parses_transaction_fields =
    reads (row "resolve" "7" "3" "" ∷ []) (is_single resolve 7 3)

unfoldable pub test_chargeback_empty_amount_parses_transaction_fields : Bool
unfolding read_csv
test_chargeback_empty_amount_parses_transaction_fields =
    reads (row "chargeback" "5" "10" "" ∷ []) (is_single chargeback 5 10)

-- The field of blanks is empty once `Trim::All` has trimmed it.
unfoldable pub test_whitespace_amount_field_is_zero : Bool
unfolding read_csv
test_whitespace_amount_field_is_zero =
    reads without_amounts λ messages. (length messages == 3) && all_zero messages

unfoldable pub test_mixed_rows_empty_and_non_empty_amounts : Bool
unfolding read_csv
test_mixed_rows_empty_and_non_empty_amounts =
    reads (row "deposit" "1" "1" "100.0" ∷ row "withdrawal" "1" "2" "50.0" ∷ without_amounts)
      (amounts_are (100 ∷ 50 ∷ 0 ∷ 0 ∷ 0 ∷ []))

unfoldable pub test_chrono_order_assigned_for_empty_amount_rows : Bool
unfolding read_csv
test_chrono_order_assigned_for_empty_amount_rows =
    reads (row "deposit" "1" "1" "10" ∷ row "dispute" "1" "1" "" ∷ row "resolve" "1" "1" "" ∷ [])
      (orders_are (0 ∷ 1 ∷ 2 ∷ []))

unfoldable pub test_invalid_transaction_type_is_error : Bool
unfolding read_csv
test_invalid_transaction_type_is_error = elim (read_csv (row "refund" "1" "1" "100" ∷ [])) [
  | ok messages ↦ false
  | err e ↦ true
  | panicked ↦ false
]

unfoldable pub test_four_decimal_places_input : Bool
unfolding Amount.parse
test_four_decimal_places_input =
    parses (codes "5") (λ a. is_major a (pos 5))
    && parses (codes "5.1") (eq_ℤ (from_scaled (pos 51000)))
    && parses (codes "5.1234") (eq_ℤ (from_scaled (pos 51234)))
    && parses (codes "5.12341") (eq_ℤ (from_scaled (pos 51234)))
    && parses (codes "5.12349") (eq_ℤ (from_scaled (pos 51234)))
    && parses (codes "0.00001") (eq_ℤ Amount.zero)
    && parses (codes "-0.00001") (eq_ℤ Amount.zero)
