-- ===== src/UnitTests.antt =====
-- The repository's own unit tests, run on the model: a test of src/service/mod.rs is a list of
-- commands, each a call or an assertion, in the order of the test; a test of another file is the
-- Boolean of its assertions.
pub mod Batches
pub mod Disputes
pub mod Endings
pub mod Snapshots
pub mod Amounts
pub mod Files
pub mod Buffers
mod Runs
use nda_takehome.Base.{
  ℕ, suc, ⊤, Bool, true, false, not, ◌&&◌, ◌==◌, Option, none, some, List, [], ◌∷◌, ◌++◌, length,
}
use nda_takehome.Base.Int.{ℤ, pos, eq_ℤ}
use nda_takehome.Base.Outcome.{Outcome, ok, err, panicked, debug}
use nda_takehome.Collections.{get}
use nda_takehome.Domain.Amount.{Amount, from_major}
use nda_takehome.Domain.Transaction.{ClientId, TransactionId, TransactionType}
use nda_takehome.Domain.Account.State.{Account}
use nda_takehome.Message.{InputMessage}
use nda_takehome.Service.Error.{
  TransactionError, insufficient_balance, account_locked, transaction_not_disputed,
  invalid_transaction, duplicate_transaction, cannot_revert_to_normal, amount_negative,
  transaction_terminal_state, already_disputed,
}
use nda_takehome.Service.State.{
  Server, Receivers, Sent, ServiceError, ServiceMessage, incoming, transaction_batch_completion,
  new, default_config,
}
use nda_takehome.Service.Engine.{iteration, handle_buffer}
use nda_takehome.Service.Snapshot.{Snapshot, write_snapshot}
use nda_takehome.Infrastructure.CsvWriter.{Serializer}
use nda_takehome.Message.Output.{Field, number, text, boolean}
use nda_takehome.Text.{Text, codes, text_eq}
use nda_takehome.Text.Numbers.{print}

pub data Command : Type 0 where
  -- `service.iteration(seq.create_message(…), &mut buffer).await?`
  message : ClientId → TransactionId → ℕ → TransactionType → Command
  -- `service.handle_buffer(&mut buffer).await?`
  handle : Command
  -- `service.iteration(ServiceMessage::TransactionBatchCompletion(tx), &mut buffer).await?`
  completion : Command
  -- `assert_eq!(account.available, Amount::from_major(…))`, and so on
  available held total : ClientId → ℤ → Command
  locked : ClientId → Bool → Command
  accounts_len : ℕ → Command
  -- `assert_eq!(results, vec![…])`
  results : List (ClientId × (TransactionId × Outcome TransactionError ⊤)) → Command
  -- `service.write_snapshot(&mut output).await?` and the assertions on its lines
  snapshot : List Text → Command

-- `#[derive(PartialEq)]` of `TransactionError`, by the place of the variant.
abbrev error_code : TransactionError → ℕ
error_code insufficient_balance = 0
error_code account_locked = 1
error_code transaction_not_disputed = 2
error_code invalid_transaction = 3
error_code duplicate_transaction = 4
error_code cannot_revert_to_normal = 5
error_code amount_negative = 6
error_code transaction_terminal_state = 7
error_code already_disputed = 8

abbrev same_result : Outcome TransactionError ⊤ → Outcome TransactionError ⊤ → Bool
same_result (ok _) (ok _) = true
same_result (err e) (err f) = error_code e == error_code f
same_result _ _ = false

abbrev same_results :
    List (ClientId × (TransactionId × Outcome TransactionError ⊤)) → List Sent → Bool
same_results [] [] = true
same_results ((client_id, (transaction_id, result)) ∷ expected) (sent ∷ found) =
    (client_id == sent.client_id)
    && (transaction_id == sent.transaction_id)
    && same_result result sent.result
    && same_results expected found
same_results _ _ = false

abbrev pub is_major : Amount → ℤ → Bool
is_major amount units = elim (from_major debug units) [
  | ok a ↦ eq_ℤ amount a
  | err e ↦ false
  | panicked ↦ false
]

abbrev account_has : (Account → Bool) → Option Account → Bool
account_has test none = false
account_has test (some acc) = test acc

abbrev field_text : Field → Text
field_text (number n) = print n
field_text (text t) = t
field_text (boolean true) = codes "true"
field_text (boolean false) = codes "false"

abbrev join_fields : List Field → Text
join_fields [] = []
join_fields (field ∷ []) = field_text field
join_fields (field ∷ rest) = field_text field ++ b',' ∷ join_fields rest

abbrev same_lines : List Text → List Text → Bool
same_lines [] [] = true
same_lines (expected ∷ rest) (found ∷ lines) = text_eq expected found && same_lines rest lines
same_lines _ _ = false

abbrev succeeds {ℓ} : {E : Type ℓ} → Outcome E ⊤ → Bool
succeeds (ok _) = true
succeeds (err e) = false
succeeds panicked = false

-- The receivers of the tests are held to their end.
abbrev pub held_receivers : Receivers
held_receivers = record { callback_open = λ c sent. true; completion_open = λ c sent. true }

-- A sink that keeps the records, as lines without quotes.
abbrev line_writer : Serializer (List Text)
line_writer = record {
  serialize = λ fields w. (ok tt, w ++ join_fields fields ∷ []);
  flush = λ w. (ok tt, w);
}

abbrev empty_output : Snapshot (List Text)
empty_output = record {
  writer = [];
  snapshot_accounts_written = none;
  snapshot_accounts_locked = none;
}

-- `MessageSequencer::create_message`, with the next place. No test has an amount that `from_major`
-- panics on.
unfoldable pub create_message : ℕ → ClientId → TransactionId → ℕ → TransactionType → ServiceMessage
unfolding from_major
create_message chrono_order client_id transaction_id amount transaction_type =
    incoming
      (record {
        chrono_order = chrono_order;
        transaction_type = transaction_type;
        client_id = client_id;
        transaction_id = transaction_id;
        amount = elim (from_major debug (pos amount)) [
          | ok a ↦ a
          | err e ↦ pos 0
          | panicked ↦ pos 0
        ];
      })
      7

-- The commands, from a place and a service on.
unfoldable pub passes : List Command → ℕ → Server → Bool
unfolding create_message iteration handle_buffer get from_major print text_eq write_snapshot
passes [] n self = true
passes (message client_id transaction_id amount type ∷ rest) n self =
    let (result, self') =
      iteration debug held_receivers (create_message n client_id transaction_id amount type) self in
    succeeds result && passes rest (suc n) self'
passes (handle ∷ rest) n self =
    let (result, self') = handle_buffer debug held_receivers self in
    succeeds result && passes rest n self'
passes (completion ∷ rest) n self =
    let (result, self') = iteration debug held_receivers (transaction_batch_completion 8) self in
    succeeds result && passes rest n self'
passes (available k units ∷ rest) n self =
    account_has (λ acc. is_major acc.available units) (get k self.accounts) && passes rest n self
passes (held k units ∷ rest) n self =
    account_has (λ acc. is_major acc.held units) (get k self.accounts) && passes rest n self
passes (total k units ∷ rest) n self =
    account_has (λ acc. is_major acc.total units) (get k self.accounts) && passes rest n self
passes (locked k true ∷ rest) n self =
    account_has (λ acc. acc.locked) (get k self.accounts) && passes rest n self
passes (locked k false ∷ rest) n self =
    account_has (λ acc. not acc.locked) (get k self.accounts) && passes rest n self
passes (accounts_len len ∷ rest) n self = (length self.accounts == len) && passes rest n self
passes (results expected ∷ rest) n self = same_results expected self.sent && passes rest n self
passes (snapshot expected ∷ rest) n self =
    let (result, output) = write_snapshot line_writer self.accounts empty_output in
    succeeds result && same_lines expected output.writer && passes rest n self

-- The tests, each from a new service.
unfoldable pub all_pass : List (List Command) → Bool
unfolding passes
all_pass [] = true
all_pass (test ∷ tests) = passes test 0 (new default_config) && all_pass tests
