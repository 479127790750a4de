-- ===== src/UnitTests/Endings.antt =====
-- The tests of src/service/mod.rs on resolves and chargebacks.
use nda_takehome.Base.{true, false, List, [], ◌∷◌}
use nda_takehome.Base.Int.{pos}
use nda_takehome.Base.Outcome.{ok, err}
use nda_takehome.Domain.Transaction.{deposit, withdrawal, dispute, resolve, chargeback}
use nda_takehome.Service.Error.{
  account_locked, transaction_not_disputed, transaction_terminal_state,
}
use nda_takehome.UnitTests.{Command, message, handle, available, held, total, locked, results}

abbrev pub test_resolve_exceeds_disputed : List Command
test_resolve_exceeds_disputed =
    message 1 1 1000 deposit
    ∷ message 1 1 500 dispute
    ∷ message 1 1 1000 resolve
    ∷ handle
    ∷ available 1 (pos 1000)
    ∷ held 1 (pos 0)
    ∷ results ((1, (1, ok tt)) ∷ (1, (1, ok tt)) ∷ (1, (1, ok tt)) ∷ [])
    ∷ []

abbrev pub test_resolve_non_disputed : List Command
test_resolve_non_disputed =
    message 1 1 1000 deposit
    ∷ message 1 1 500 resolve
    ∷ handle
    ∷ available 1 (pos 1000)
    ∷ held 1 (pos 0)
    ∷ results ((1, (1, ok tt)) ∷ (1, (1, err transaction_not_disputed)) ∷ [])
    ∷ []

abbrev pub test_chargeback_full_dispute : List Command
test_chargeback_full_dispute =
    message 1 1 1000 deposit
    ∷ message 1 1 500 dispute
    ∷ message 1 1 500 chargeback
    ∷ handle
    ∷ available 1 (pos 0)
    ∷ held 1 (pos 0)
    ∷ total 1 (pos 0)
    ∷ results ((1, (1, ok tt)) ∷ (1, (1, ok tt)) ∷ (1, (1, ok tt)) ∷ [])
    ∷ []

abbrev pub test_chargeback_non_disputed : List Command
test_chargeback_non_disputed =
    message 1 1 1000 deposit
    ∷ message 1 1 500 chargeback
    ∷ handle
    ∷ available 1 (pos 1000)
    ∷ held 1 (pos 0)
    ∷ total 1 (pos 1000)
    ∷ results ((1, (1, ok tt)) ∷ (1, (1, err transaction_not_disputed)) ∷ [])
    ∷ []

abbrev pub test_chargeback_after_resolve : List Command
test_chargeback_after_resolve =
    message 1 1 1000 deposit
    ∷ message 1 1 500 dispute
    ∷ message 1 1 500 resolve
    ∷ message 1 1 200 chargeback
    ∷ handle
    ∷ available 1 (pos 1000)
    ∷ held 1 (pos 0)
    ∷ total 1 (pos 1000)
    ∷ results (
        (1, (1, ok tt))
        ∷ (1, (1, ok tt))
        ∷ (1, (1, ok tt))
        ∷ (1, (1, err transaction_terminal_state))
        ∷ [])
    ∷ []

abbrev pub test_locked_account_rejects_all_operations : List Command
test_locked_account_rejects_all_operations =
    message 1 1 1000 deposit
    ∷ message 1 1 123 dispute
    ∷ message 1 1 456 chargeback
    ∷ message 1 2 100 deposit
    ∷ message 1 3 50 withdrawal
    ∷ message 1 1 111 dispute
    ∷ message 1 1 101 resolve
    ∷ message 1 1 143 chargeback
    ∷ handle
    ∷ available 1 (pos 0)
    ∷ held 1 (pos 0)
    ∷ total 1 (pos 0)
    ∷ locked 1 true
    ∷ results (
        (1, (1, ok tt))
        ∷ (1, (1, ok tt))
        ∷ (1, (1, ok tt))
        ∷ (1, (2, err account_locked))
        ∷ (1, (3, err account_locked))
        ∷ (1, (1, err account_locked))
        ∷ (1, (1, err account_locked))
        ∷ (1, (1, err account_locked))
        ∷ [])
    ∷ []

abbrev pub test_multi_client_dispute_isolation : List Command
test_multi_client_dispute_isolation =
    message 1 1 1000 deposit
    ∷ message 2 2 2000 deposit
    ∷ message 1 1 0 dispute
    ∷ message 1 1 0 chargeback
    ∷ handle
    ∷ available 1 (pos 0)
    ∷ held 1 (pos 0)
    ∷ total 1 (pos 0)
    ∷ locked 1 true
    ∷ available 2 (pos 2000)
    ∷ held 2 (pos 0)
    ∷ total 2 (pos 2000)
    ∷ locked 2 false
    ∷ results ((1, (1, ok tt)) ∷ (2, (2, ok tt)) ∷ (1, (1, ok tt)) ∷ (1, (1, ok tt)) ∷ [])
    ∷ []
