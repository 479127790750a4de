-- ===== src/UnitTests/Runs.antt =====
-- The unit tests of src/service/mod.rs, src/domain/amount.rs and src/infrastructure/csv_reader.rs
-- pass on the model.
use nda_takehome.Base.{true, ◌&&◌, [], ◌∷◌, ◌≡◌, refl}
use nda_takehome.Base.Int.{neg_ℤ, ◌+ℤ◌, ◌-ℤ◌}
use nda_takehome.Collections.{
  add, all_entries, contains, contains_key, get, insert, is_disjoint, modify_at, remove,
}
use nda_takehome.Collections.Heap.{pop, select}
use nda_takehome.Message
use nda_takehome.Domain.Amount.{from_major, scale_i64, wrap_i64, parse, to_string}
use nda_takehome.Domain.Account.State.{can_transition, execute}
use nda_takehome.Domain.Account.Check.{
  balances_hold, check_invariants, disputes_are_disputed, held_is_pending, in_one_set,
  lock_has_chargeback, pending_sum, sets_are_disjoint, sets_are_recorded, sizes_agree,
}
use nda_takehome.Domain.Account.Operations.{
  assert_invariants, process, process_chargeback, process_deposit, process_dispute, process_resolve,
  process_withdrawal, shared_prestep,
}
use nda_takehome.Domain.Account.Operations.Unlocked.{
  do_transition, stored_amount, unlocked_chargeback, unlocked_deposit, unlocked_dispute,
  unlocked_resolve, unlocked_withdrawal,
}
use nda_takehome.Service.PendingTransaction
use nda_takehome.Service.Engine.{
  assert_entry, count_result, drain, handle_buffer, iteration, process_entry, process_pending,
  send_completion, send_outcome,
}
use nda_takehome.Service.Snapshot.{write_accounts, write_snapshot}
use nda_takehome.Infrastructure.CsvWriter.{write_header, write_message, flush, message_row}
use nda_takehome.Message.Output.{from_account}
use nda_takehome.Text.{text_eq, pad_left, trim, find, is_whitespace}
use nda_takehome.Text.Numbers.{print, parse_i64, parse_unsigned}
use nda_takehome.Domain.Transaction.{from_str}
use nda_takehome.Infrastructure.CsvReader.{next, next_record, read_record, read_amount, next_order}
use nda_takehome.UnitTests.{all_pass, passes, create_message}
use nda_takehome.UnitTests.Batches.{
  test_handle_buffer_empty, test_handle_buffer_with_deposit, test_handle_buffer_with_withdrawal,
  test_handle_buffer_multiple_clients, test_duplicate_transaction_id, test_duplicate_withdrawal_id,
}
use nda_takehome.UnitTests.Disputes.{
  test_dispute_exceeds_available, test_dispute_non_existent_tx, test_multiple_disputes_same_tx,
  test_dispute_multiple_txs, test_dispute_withdrawal_after, test_redispute_after_resolve,
}
use nda_takehome.UnitTests.Endings.{
  test_resolve_exceeds_disputed, test_resolve_non_disputed, test_chargeback_full_dispute,
  test_chargeback_non_disputed, test_chargeback_after_resolve,
  test_locked_account_rejects_all_operations, test_multi_client_dispute_isolation,
}
use nda_takehome.UnitTests.Buffers.{into_sorted_vec, step, test_ordering_in_buffer}
use nda_takehome.UnitTests.Snapshots.{test_write_snapshot, test_write_snapshot_locked_account}
use nda_takehome.UnitTests.Amounts.{
  test_parse, test_parse_negative, test_parse_whitespace, test_parse_invalid, test_display,
  test_is_positive, test_arithmetic, test_ordering,
}
use nda_takehome.UnitTests.Files.{
  read_all, read_csv, test_empty_amount_field_is_zero,
  test_dispute_empty_amount_parses_transaction_fields,
  test_resolve_empty_amount_parses_transaction_fields,
  test_chargeback_empty_amount_parses_transaction_fields, test_whitespace_amount_field_is_zero,
  test_mixed_rows_empty_and_non_empty_amounts, test_chrono_order_assigned_for_empty_amount_rows,
  test_invalid_transaction_type_is_error, test_four_decimal_places_input,
}

service_tests_pass :
    all_pass (
      test_handle_buffer_empty ∷ test_handle_buffer_with_deposit
      ∷ test_handle_buffer_with_withdrawal ∷ test_handle_buffer_multiple_clients
      ∷ test_duplicate_transaction_id ∷ test_duplicate_withdrawal_id
      ∷ test_dispute_exceeds_available ∷ test_dispute_non_existent_tx
      ∷ test_multiple_disputes_same_tx ∷ test_dispute_multiple_txs ∷ test_dispute_withdrawal_after
      ∷ test_redispute_after_resolve ∷ test_resolve_exceeds_disputed ∷ test_resolve_non_disputed
      ∷ test_chargeback_full_dispute ∷ test_chargeback_non_disputed ∷ test_chargeback_after_resolve
      ∷ test_locked_account_rejects_all_operations ∷ test_multi_client_dispute_isolation
      ∷ test_write_snapshot ∷ test_write_snapshot_locked_account ∷ [])
    ≡ true
unfolding all_pass passes create_message iteration handle_buffer drain process_pending process_entry
    assert_entry count_result send_outcome send_completion pop select PendingTransaction.cmp
    Message.cmp process process_deposit process_withdrawal process_dispute process_resolve
    process_chargeback shared_prestep assert_invariants unlocked_deposit unlocked_withdrawal
    unlocked_dispute unlocked_resolve unlocked_chargeback do_transition stored_amount can_transition
    execute check_invariants balances_hold in_one_set sets_are_recorded sizes_agree
    sets_are_disjoint disputes_are_disputed lock_has_chargeback pending_sum held_is_pending
    from_major scale_i64 get insert contains_key modify_at add remove contains is_disjoint
    all_entries ◌+ℤ◌ ◌-ℤ◌ write_snapshot write_accounts write_header write_message flush message_row
    from_account to_string print pad_left text_eq
service_tests_pass = refl

buffer_test_passes : test_ordering_in_buffer ≡ true
unfolding test_ordering_in_buffer step into_sorted_vec create_message iteration pop select
    PendingTransaction.cmp Message.cmp from_major scale_i64
buffer_test_passes = refl

amount_tests_pass :
    test_parse && test_parse_negative && test_parse_whitespace && test_parse_invalid && test_display
      && test_is_positive && test_arithmetic && test_ordering
    ≡ true
unfolding test_parse test_parse_negative test_parse_whitespace test_parse_invalid test_display
    test_is_positive test_arithmetic test_ordering parse to_string print pad_left text_eq trim find
    is_whitespace parse_i64 from_major scale_i64 wrap_i64 neg_ℤ ◌+ℤ◌ ◌-ℤ◌
amount_tests_pass = refl

reader_tests_pass :
    test_empty_amount_field_is_zero && test_dispute_empty_amount_parses_transaction_fields
      && test_resolve_empty_amount_parses_transaction_fields
      && test_chargeback_empty_amount_parses_transaction_fields
      && test_whitespace_amount_field_is_zero && test_mixed_rows_empty_and_non_empty_amounts
      && test_chrono_order_assigned_for_empty_amount_rows && test_invalid_transaction_type_is_error
      && test_four_decimal_places_input
    ≡ true
unfolding test_empty_amount_field_is_zero test_dispute_empty_amount_parses_transaction_fields
    test_resolve_empty_amount_parses_transaction_fields
    test_chargeback_empty_amount_parses_transaction_fields test_whitespace_amount_field_is_zero
    test_mixed_rows_empty_and_non_empty_amounts test_chrono_order_assigned_for_empty_amount_rows
    test_invalid_transaction_type_is_error test_four_decimal_places_input read_csv read_all next
    next_record read_record read_amount next_order from_str parse_unsigned parse trim find
    is_whitespace parse_i64 from_major scale_i64 wrap_i64 text_eq
reader_tests_pass = refl
