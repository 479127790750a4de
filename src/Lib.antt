-- ===== src/Lib.antt =====
-- The payments engine of the crate `nda_takehome`: a CSV file of deposits, withdrawals, disputes,
-- resolves and chargebacks is read row by row (src/infrastructure/csv_reader.rs), sent over a channel
-- to the service (src/service/mod.rs), which buffers the messages in a heap and processes them in
-- batches on one account per client (src/domain/account.rs); at the end a snapshot of the accounts
-- is written as CSV. src/main.rs wires the parts together.
--
-- Which file models which part:
--   Domain/Amount           src/domain/amount.rs: parsing, printing and arithmetic. An amount is an
--                           integer; the `i64` on the way is written out with its wrap-around, and
--                           with the panic of a debug build.
--   Domain/Transaction      src/domain/transaction.rs
--   Domain/Account/State    src/domain/account.rs: `Account`, `TransactionState`,
--                           `ExecuteTransition`
--   Domain/Account/Check    src/domain/account.rs: `check_invariants`, one function for each of
--                           its groups of assertions
--   Domain/Account/Operations  src/domain/account.rs: the `process_…` methods. The body behind
--                           `shared_prestep` of each is in Operations/Unlocked.
--   Domain/Account/Settlement  what an operation does, as a relation with one constructor for
--                           each way to succeed and each reason to refuse
--   Domain/Account/Invariant, Domain/Account/History  the invariant of an account, and what follows
--                           for every account that messages lead to
--   Message                 src/message.rs: the order of messages, and (Output) the output row
--   Service                 src/service: Error, PendingTransaction, State, Engine (the event loop)
--                           and Snapshot (`write_snapshot`)
--   Service/Termination     the loops of the service and the fuel they need
--   Service/Reconciliation  the instruments of the event loop against what it has processed
--   Service/Sequential      what the service is to compute, without buffer and batches, and the
--                           engine against it, (Once) with any receivers and in any order
--   Infrastructure          src/infrastructure: the reader and the writer
--   Pipeline                src/main.rs: `load_file`, the way from the file to the accounts,
--                           (Outcomes) the task that counts the outcomes, (Run) what `main` does
--                           at the end, in the schedule that runs its tasks one after the other,
--                           (Tasks) the tasks of `main` as a step relation in which any schedule
--                           picks the next task, and (RoundTrip) messages written as rows
--   Metrics                 src/metrics.rs: the instruments, the attributes of a count and
--                           `setup_exporter`; (Log) src/metrics/metrics_log.rs
--   Quint                   payments.qnt, the state machine that the repository gives as the
--                           specification of one account, and the code's account as its state;
--                           (Clients) all the clients of the service
--   UnitTests               the unit tests of the repository, run on the model
--   Base, Collections, Text what the source uses of the standard library: numbers, results,
--                           `HashMap`, `HashSet`, `BinaryHeap`, `str`
--   Examples                concrete runs
--
-- How the code is modelled. A method with `&mut self` that returns a `Result` is an `Action`
-- (Base/Action): it maps the state to an outcome and the new state, where the outcome is `ok`, `err`
-- or `panicked` (Base/Outcome), and what was written stays written when a call fails. `Build` says
-- whether `debug_assertions` is on; it decides whether `check_invariants` runs, whether the debug
-- history is kept, and whether an overflow panics. A `HashMap` is an association list in which an
-- insertion keeps the place of a key that is there; iteration is in the order of the list. A
-- `BinaryHeap` is the list of its elements, and `pop` takes out a greatest one, the first pushed of
-- several. Where a theorem fixes an order of processing, no two messages are equal for the order, so
-- that it does not rest on this choice.
--
-- The channels are parameters: `Receivers` says, for each moment, whether the receiver of a channel
-- is still there, and what is sent is recorded in the state. The messages that the event loop
-- receives before it is cancelled or its channel is closed are a list. The rows that the crate
-- `csv_async` makes of a file are a list with `none` for a row that it cannot deserialize, and its
-- serializer is a record of two functions with the law that it writes one record for each call.
--
-- The tasks of `main` share channels; a step of the relation in Pipeline/Tasks is what one task does
-- from one `await` to the next. The process ends when `main` returns, and what another task would
-- still do after that is not a step.
--
-- Fuel: `drain` takes the number of the buffered messages, each round pops one; `load_rows` takes one
-- more than the number of the rows, each round takes one; `print` takes one more than the number it
-- prints, each round divides it by ten. Base/Loop gives a loop without fuel, as the relation of its
-- rounds, for the first two. `u64` counters other than the position in the file are unbounded.
--
-- Parameters, for code outside the repository: the printing of a floating-point number and of a JSON
-- value in the log of the metrics, the serializer of `csv_async`, and the ends of the channels.
--
-- Not modelled: the command line (src/cli/mod.rs declares it, src/args.rs is a copy that nothing
-- uses), the tracing, the durations, the shutdown of the metrics provider, OpenTelemetry, serde_json
-- and csv_async themselves, and the property, fuzz and end-to-end tests, which drive the compiled
-- program or random input.
pub mod Base
pub mod Collections
pub mod Text
pub mod Domain
pub mod Message
pub mod Metrics
pub mod Service
pub mod Infrastructure
pub mod Pipeline
pub mod Quint
pub mod Examples
pub mod UnitTests
