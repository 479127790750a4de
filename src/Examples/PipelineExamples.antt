-- ===== src/Examples/PipelineExamples.antt =====
-- The theorems on the loader, at a file with a bad third row.
use nda_takehome.Base.{
  false, ◌↔◌, length, ◌+◌, ◌≡◌, [], ◌∷◌, List, Option, none, some, refl, arith, ◌++◌,
}
use nda_takehome.Base.Outcome.{err, release, ok}
use nda_takehome.Text.{codes}
use nda_takehome.Text.Numbers.{parse_unsigned}
use nda_takehome.Domain.Transaction.{from_str}
use nda_takehome.Infrastructure.CsvReader.{RawInputMessage, not_deserialized, read_amount}
use nda_takehome.Infrastructure.CsvReader.Rows.{scan, row_message}
use nda_takehome.Service.State.{default_config, new}
use nda_takehome.Service.Engine.{server_forever}
use nda_takehome.Service.Sequential.{run_accounts, run_sent}
use nda_takehome.Base.Loop.{Runs}
use nda_takehome.Pipeline.{load_file, Loader, loader, load_rows}
use nda_takehome.Pipeline.Loading.{incoming_all}
use nda_takehome.Pipeline.EndToEnd.{
  load_file_lem, load_and_serve, signal_of, pending_all, confirmed,
}
use nda_takehome.Pipeline.Outcomes.{
  accepted, refusals, count_outcomes, count_outcomes_of_file, no_outcomes,
}
use nda_takehome.Message.Output.{Field}
use nda_takehome.Infrastructure.CsvWriter.{Serializer, header}
use nda_takehome.Service.Snapshot.{Snapshot}
use nda_takehome.Service.Snapshot.Rows.{account_rows}
use nda_takehome.Pipeline.Termination.{load_round, load_rows-Runs_iff}
use nda_takehome.Pipeline.Run.{run, run_bad, run_good, signal_dropped}
use nda_takehome.Pipeline.RoundTrip.{numbered, rows_of, load_file-rows_of}
use nda_takehome.Service.State.{transaction_batch_completion}
use nda_takehome.Message.{InputMessage}
use nda_takehome.Base.Int.{◌+ℤ◌}
use nda_takehome.Collections.{get, contains_key, insert}
use nda_takehome.Service.Error.{insufficient_balance, to_string}
use nda_takehome.Domain.Account.Operations.{
  process, process_deposit, process_withdrawal, shared_prestep,
}
use nda_takehome.Examples.{open_ends, pay_in, contest}

abbrev pub file : List (Option RawInputMessage)
file =
    some
      (record { type = codes "deposit"; client = codes "1"; tx = codes "1"; amount = codes "5.0" })
    ∷ some
        (record { type = codes "dispute"; client = codes "1"; tx = codes "1"; amount = codes "" })
    ∷ none
    ∷ []

load_file_lem_example : load_file release 7 8 (some file) ≡ (
  (scan release 0 file).1,
  incoming_all 7 (scan release 0 file).0 ++ signal_of 8 (scan release 0 file).1,
)
load_file_lem_example = load_file_lem release 7 8 file (omega arith)

load_and_serve_example :
    let (messages, result) = scan release 0 file in
    let (loaded, rx) = load_file release 7 8 (some file) in
    let (served, self) = server_forever release open_ends rx (new default_config) in
    (loaded ≡ result)
    × (served ≡ ok tt)
    × (self.accounts ≡ run_accounts release (pending_all 7 messages) [])
    × (self.sent ≡ run_sent release (pending_all 7 messages) [])
    × (self.completed ≡ confirmed 8 result)
load_and_serve_example =
    load_and_serve release open_ends (λ c sent. refl, λ c sent. refl) default_config 7 8 file
      (omega arith)

-- A file with a deposit that is accepted and a withdrawal that is refused.
abbrev overdrawn_file : List (Option RawInputMessage)
overdrawn_file =
    some
      (record { type = codes "deposit"; client = codes "1"; tx = codes "1"; amount = codes "5.0" })
    ∷ some (record {
      type = codes "withdrawal";
      client = codes "1";
      tx = codes "2";
      amount = codes "6.0";
    })
    ∷ []

count_outcomes_of_file_example :
    let rx = (load_file release 7 8 (some overdrawn_file)).1 in
    let self = (server_forever release open_ends rx (new default_config)).1 in
    let counted = count_outcomes self.sent no_outcomes in
    let messages = (scan release 0 overdrawn_file).0 in
    let txs = pending_all 7 messages in
    (counted.ok_count ≡ accepted release txs [])
    × (counted.errors ≡ refusals release txs [])
    × (counted.err_count ≡ length (refusals release txs []))
    × (counted.ok_count + counted.err_count ≡ length messages)
count_outcomes_of_file_example =
    count_outcomes_of_file release open_ends (λ c sent. refl, λ c sent. refl) default_config 7 8
      overdrawn_file (omega arith)

overdrawn_logged :
    refusals release (pending_all 7 (scan release 0 overdrawn_file).0) []
    ≡ (1, (2, to_string insufficient_balance)) ∷ []
unfolding refusals scan row_message from_str parse_unsigned read_amount process process_deposit
    process_withdrawal shared_prestep get contains_key insert ◌+ℤ◌
overdrawn_logged = refl

overdrawn_accepted : accepted release (pending_all 7 (scan release 0 overdrawn_file).0) [] ≡ 1
unfolding accepted scan row_message from_str parse_unsigned read_amount process process_deposit
    process_withdrawal shared_prestep get contains_key insert ◌+ℤ◌
overdrawn_accepted = refl

-- The file without its bad row.
abbrev pub good_file : List (Option RawInputMessage)
good_file =
    some
      (record { type = codes "deposit"; client = codes "1"; tx = codes "1"; amount = codes "5.0" })
    ∷ []

abbrev pub keeping : Serializer (List (List Field))
keeping = record { serialize = λ fields w. (ok tt, w ++ fields ∷ []); flush = λ w. (ok tt, w) }

abbrev pub nothing_written : Snapshot (List (List Field))
nothing_written = record {
  writer = [];
  snapshot_accounts_written = none;
  snapshot_accounts_locked = none;
}

file_is_bad : (scan release 0 file).1 ≡ err not_deserialized
unfolding scan row_message from_str parse_unsigned read_amount
file_is_bad = refl

file_is_good : (scan release 0 good_file).1 ≡ ok tt
unfolding scan row_message from_str parse_unsigned read_amount
file_is_good = refl

run_bad_example :
    run keeping release open_ends default_config 7 8 (some file) nothing_written
    ≡ (err signal_dropped, nothing_written)
run_bad_example =
    run_bad keeping release open_ends (λ c sent. refl, λ c sent. refl) default_config 7 8 file
      (omega arith) nothing_written not_deserialized file_is_bad

run_good_example :
    let (result, self') =
      run keeping release open_ends default_config 7 8 (some good_file) nothing_written in
    let accounts = run_accounts release (pending_all 7 (scan release 0 good_file).0) [] in
    (result ≡ ok tt) × (self'.writer ≡ [] ++ header ∷ account_rows accounts)
run_good_example =
    run_good keeping release open_ends (λ c sent. refl, λ c sent. refl) default_config 7 8 good_file
      (omega arith) nothing_written (λ w. w)
      (record { serialized = λ fields w. (refl, refl); flushed = λ w. (refl, refl) }) file_is_good

abbrev opened_file : Loader
opened_file = loader (record {
  records = file;
  chrono_order = 0;
  done = false;
  csv_parse_errors = 0;
  csv_rows_parsed = 0;
})

load_rows-Runs_iff_example :
    Runs (load_round release 7) opened_file (load_rows release 7 4 opened_file)
    ↔ (load_rows release 7 4 opened_file ≡ load_rows release 7 4 opened_file)
load_rows-Runs_iff_example =
    load_rows-Runs_iff release 7 4 opened_file (load_rows release 7 4 opened_file) (omega arith)

abbrev two_messages : List InputMessage
two_messages = pay_in ∷ contest ∷ []

load_file-rows_of_example :
    load_file release 7 8 (some (rows_of two_messages))
    ≡ (ok tt, incoming_all 7 (numbered 0 two_messages) ++ transaction_batch_completion 8 ∷ [])
load_file-rows_of_example =
    load_file-rows_of release 7 8 two_messages
      ((omega arith, omega arith, refl), ((omega arith, omega arith, refl), tt)) (omega arith)
