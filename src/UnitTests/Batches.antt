-- ===== src/UnitTests/Batches.antt =====
-- The tests of src/service/mod.rs on deposits, withdrawals and whole batches.
use nda_takehome.Base.{false, List, [], ◌∷◌}
use nda_takehome.Base.Int.{pos}
use nda_takehome.Base.Outcome.{ok, err}
use nda_takehome.Domain.Transaction.{deposit, withdrawal}
use nda_takehome.Service.Error.{insufficient_balance, duplicate_transaction}
use nda_takehome.UnitTests.{
  Command, message, handle, completion, available, held, total, locked, accounts_len, results,
}

abbrev pub test_handle_buffer_empty : List Command
test_handle_buffer_empty = completion ∷ accounts_len 0 ∷ []

abbrev pub test_handle_buffer_with_deposit : List Command
test_handle_buffer_with_deposit =
    message 1 1 100 deposit
    ∷ handle
    ∷ available 1 (pos 100)
    ∷ total 1 (pos 100)
    ∷ held 1 (pos 0)
    ∷ locked 1 false
    ∷ results ((1, (1, ok tt)) ∷ [])
    ∷ []

abbrev pub test_handle_buffer_with_withdrawal : List Command
test_handle_buffer_with_withdrawal =
    message 1 2 30 withdrawal
    ∷ message 1 1 100 deposit
    ∷ handle
    ∷ available 1 (pos 100)
    ∷ total 1 (pos 100)
    ∷ results ((1, (2, err insufficient_balance)) ∷ (1, (1, ok tt)) ∷ [])
    ∷ []

abbrev pub test_handle_buffer_multiple_clients : List Command
test_handle_buffer_multiple_clients =
    message 1 1 100 deposit
    ∷ message 2 2 200 deposit
    ∷ handle
    ∷ available 1 (pos 100)
    ∷ available 2 (pos 200)
    ∷ results ((1, (1, ok tt)) ∷ (2, (2, ok tt)) ∷ [])
    ∷ []

abbrev pub test_duplicate_transaction_id : List Command
test_duplicate_transaction_id =
    message 1 1 100 deposit
    ∷ message 1 1 200 deposit
    ∷ handle
    ∷ available 1 (pos 100)
    ∷ total 1 (pos 100)
    ∷ results ((1, (1, ok tt)) ∷ (1, (1, err duplicate_transaction)) ∷ [])
    ∷ []

abbrev pub test_duplicate_withdrawal_id : List Command
test_duplicate_withdrawal_id =
    message 1 1 1000 deposit
    ∷ message 1 2 100 withdrawal
    ∷ message 1 2 50 withdrawal
    ∷ handle
    ∷ available 1 (pos 900)
    ∷ results ((1, (1, ok tt)) ∷ (1, (2, ok tt)) ∷ (1, (2, err duplicate_transaction)) ∷ [])
    ∷ []
