-- ===== src/Examples/SafetyExamples.antt =====
-- The theorems on the service whatever its receivers and its sink do, and on the loop of a batch.
use nda_takehome.Base.{◌≡◌, ◌↔◌, ◌∙◌, true, [], ◌∷◌, List, some, refl, ap, arith, ⊤, length}
use nda_takehome.Base.Outcome.{Outcome, ok, err, release}
use nda_takehome.Base.Loop.{Runs}
use nda_takehome.Collections.{get, insert}
use nda_takehome.Message.Output.{Field}
use nda_takehome.Domain.Account.Check.{check_invariants}
use nda_takehome.Infrastructure.CsvWriter.{
  Serializer, header, write_header, write_message, record_failed,
}
use nda_takehome.Service.State.{ServiceConfig, Server, default_config}
use nda_takehome.Service.State
use nda_takehome.Service.Engine.{drain, server_forever}
use nda_takehome.Service.Sequential.{run_accounts}
use nda_takehome.Service.Sequential.Server.{server_forever_lem}
use nda_takehome.Service.Sequential.Once.{Safe, Emptied}
use nda_takehome.Service.Sequential.Once.Loop.{server_forever-Safe, server_forever-check_invariants}
use nda_takehome.Service.Termination.{drain_round, drain-Runs_iff}
use nda_takehome.Service.Reconciliation.Batches.{Reconciles}
use nda_takehome.Service.Reconciliation.Loop.{server_forever-Reconciles}
use nda_takehome.Service.Sequential.Outlook.{incoming_of}
use nda_takehome.Service.Snapshot.{write_snapshot, write_accounts}
use nda_takehome.Service.Snapshot.Rows.{account_rows}
use nda_takehome.Service.Snapshot.Failure.{Written, Snaps}
use nda_takehome.Service.Snapshot.Failure.Writing.{write_snapshot-Snaps}
use nda_takehome.Examples.{paid, open_ends}
use nda_takehome.Examples.ServiceExamples.{
  in_order_messages, filled, received, messages-InOrder, nothing_written, two_accounts, closed_ends,
}

server_forever-Safe_example :
    Safe release in_order_messages
      (Emptied release in_order_messages [])
      (server_forever release closed_ends received (State.new default_config))
server_forever-Safe_example = server_forever-Safe release closed_ends default_config received

paid_account : get 1 (run_accounts release in_order_messages []) ≡ some paid
unfolding run_accounts get insert
paid_account = refl

served_account :
    get 1 (server_forever release open_ends received (State.new default_config)).1.accounts
    ≡ some paid
served_account =
    let (good, emptied, accounts, sent, completed) =
      server_forever_lem release open_ends (λ c sent. refl, λ c sent. refl) default_config received
        messages-InOrder in
    ap (get 1) accounts ∙ paid_account

server_forever-check_invariants_example : check_invariants paid ≡ true
server_forever-check_invariants_example =
    server_forever-check_invariants release open_ends default_config received 1 paid served_account

abbrev by_two : ServiceConfig
by_two = record { batch_size = 2 }

abbrev served_by_two : Server
served_by_two = (server_forever release open_ends received (State.new by_two)).1

served_well : server_forever release open_ends received (State.new by_two) ≡ (ok tt, served_by_two)
served_well =
    let (good, _, _, _, _) =
      server_forever_lem release open_ends (λ c sent. refl, λ c sent. refl) by_two received
        messages-InOrder in
    ap (λ result. (result, served_by_two)) good

server_forever-Reconciles_example :
    Reconciles by_two (length received) (length (incoming_of received)) served_by_two
    × (served_by_two.ordered_messages ≡ [])
server_forever-Reconciles_example =
    server_forever-Reconciles release open_ends by_two received served_by_two served_well

drain-Runs_iff_example :
    Runs
      (drain_round release closed_ends)
      ((0, 0), filled)
      (drain release closed_ends 3 (0, 0) filled)
    ↔ (drain release closed_ends 3 (0, 0) filled ≡ drain release closed_ends 3 (0, 0) filled)
drain-Runs_iff_example =
    drain-Runs_iff release closed_ends 3 (0, 0) filled (drain release closed_ends 3 (0, 0) filled)
      (omega arith)

-- A sink with room for two records.
abbrev write_two : List Field → List (List Field) → Outcome ⊤ ⊤ × List (List Field)
write_two fields [] = (ok tt, fields ∷ [])
write_two fields (x ∷ []) = (ok tt, x ∷ fields ∷ [])
write_two fields (x ∷ y ∷ w) = (err tt, x ∷ y ∷ w)

abbrev two_records : Serializer (List (List Field))
two_records = record { serialize = write_two; flush = λ w. (ok tt, w) }

abbrev no_change : List (List Field) → List (List Field)
no_change w = w

write_two-Written :
    (fields : List Field) (w : List (List Field)) → Written no_change fields w (write_two fields w)
write_two-Written fields [] = refl
write_two-Written fields (x ∷ []) = refl
write_two-Written fields (x ∷ y ∷ w) = refl

write_snapshot-Snaps_example :
    Snaps no_change two_accounts
      (header ∷ account_rows two_accounts)
      nothing_written
      (write_snapshot two_records two_accounts nothing_written)
write_snapshot-Snaps_example =
    write_snapshot-Snaps no_change two_records
      (record { serialized = write_two-Written; flushed = λ w. refl }) two_accounts nothing_written

-- The second account does not fit.
two_records_fail : (write_snapshot two_records two_accounts nothing_written).0 ≡ err record_failed
unfolding write_snapshot write_accounts write_header write_message
two_records_fail = refl
