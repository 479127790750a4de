-- ===== src/UnitTests/Disputes.antt =====
-- The tests of src/service/mod.rs on disputes.
use nda_takehome.Base.{false, List, [], ◌∷◌}
use nda_takehome.Base.Int.{pos, negsuc}
use nda_takehome.Base.Outcome.{ok, err}
use nda_takehome.Domain.Transaction.{deposit, withdrawal, dispute, resolve}
use nda_takehome.Service.Error.{
  insufficient_balance, invalid_transaction, transaction_terminal_state, already_disputed,
}
use nda_takehome.UnitTests.{
  Command, message, handle, available, held, total, locked, accounts_len, results,
}

abbrev pub test_dispute_exceeds_available : List Command
test_dispute_exceeds_available =
    message 1 1 1000 deposit
    ∷ message 1 2 800 withdrawal
    ∷ message 1 1 123 dispute
    ∷ handle
    ∷ available 1 (negsuc 799)
    ∷ held 1 (pos 1000)
    ∷ total 1 (pos 200)
    ∷ results ((1, (1, ok tt)) ∷ (1, (2, ok tt)) ∷ (1, (1, ok tt)) ∷ [])
    ∷ []

abbrev pub test_dispute_non_existent_tx : List Command
test_dispute_non_existent_tx =
    message 1 1 1000 deposit
    ∷ message 1 999 100 dispute
    ∷ handle
    ∷ accounts_len 1
    ∷ available 1 (pos 1000)
    ∷ held 1 (pos 0)
    ∷ results ((1, (1, ok tt)) ∷ (1, (999, err invalid_transaction)) ∷ [])
    ∷ []

abbrev pub test_multiple_disputes_same_tx : List Command
test_multiple_disputes_same_tx =
    message 1 1 1000 deposit
    ∷ message 1 1 123 dispute
    ∷ message 1 1 456 dispute
    ∷ handle
    ∷ available 1 (pos 0)
    ∷ held 1 (pos 1000)
    ∷ results ((1, (1, ok tt)) ∷ (1, (1, ok tt)) ∷ (1, (1, err already_disputed)) ∷ [])
    ∷ []

abbrev pub test_dispute_multiple_txs : List Command
test_dispute_multiple_txs =
    message 1 1 600 deposit
    ∷ message 1 2 400 deposit
    ∷ message 1 1 123 dispute
    ∷ message 1 2 456 dispute
    ∷ handle
    ∷ available 1 (pos 0)
    ∷ held 1 (pos 1000)
    ∷ results ((1, (1, ok tt)) ∷ (1, (2, ok tt)) ∷ (1, (1, ok tt)) ∷ (1, (2, ok tt)) ∷ [])
    ∷ []

abbrev pub test_dispute_withdrawal_after : List Command
test_dispute_withdrawal_after =
    message 1 1 1000 deposit
    ∷ message 1 1 123 dispute
    ∷ message 1 2 200 withdrawal
    ∷ handle
    ∷ available 1 (pos 0)
    ∷ held 1 (pos 1000)
    ∷ results ((1, (1, ok tt)) ∷ (1, (1, ok tt)) ∷ (1, (2, err insufficient_balance)) ∷ [])
    ∷ []

abbrev pub test_redispute_after_resolve : List Command
test_redispute_after_resolve =
    message 1 1 1000 deposit
    ∷ message 1 1 500 dispute
    ∷ message 1 1 500 resolve
    ∷ message 1 1 300 dispute
    ∷ handle
    ∷ available 1 (pos 1000)
    ∷ held 1 (pos 0)
    ∷ total 1 (pos 1000)
    ∷ locked 1 false
    ∷ results (
        (1, (1, ok tt))
        ∷ (1, (1, ok tt))
        ∷ (1, (1, ok tt))
        ∷ (1, (1, err transaction_terminal_state))
        ∷ [])
    ∷ []
