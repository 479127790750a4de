-- ===== src/Pipeline/Outcomes.antt =====
-- The task of src/main.rs that receives the outcomes of the transactions and counts them.
use nda_takehome.Base.{
  ℕ, ◌+◌, ◌^◌, ◌<◌, ⊤, Option, some, List, [], ◌∷◌, ◌++◌, length, ◌≡◌, ◌≢◌, refl, sym, ap, arith,
  subst, suc, ◌∙◌, append_assoc, append-nil,
}
use nda_takehome.Base.Outcome.{Outcome, ok, err, panicked, Build}
use nda_takehome.Text.{Text}
use nda_takehome.Message.{InputMessage}
use nda_takehome.Domain.Transaction.{ClientId, TransactionId}
use nda_takehome.Service.Error.{TransactionError, to_string}
use nda_takehome.Service.PendingTransaction.{PendingTransaction, Channel}
use nda_takehome.Service.State.{Sent, Receivers, ServiceConfig, new}
use nda_takehome.Service.Engine.{server_forever}
use nda_takehome.Service.Sequential.{Accounts, outcome, step_accounts, run_sent, sent_of}
use nda_takehome.Service.Sequential.Accounts.{
  AllConsistent, none-AllConsistent, step_accounts-AllConsistent,
}
use nda_takehome.Service.Sequential.Pending.{AllOpen, outcome-returns}
use nda_takehome.Infrastructure.CsvReader.{RawInputMessage}
use nda_takehome.Infrastructure.CsvReader.Rows.{scan}
use nda_takehome.Pipeline.{load_file}
use nda_takehome.Pipeline.EndToEnd.{pending_all, load_and_serve}

-- The counters of the task, and the errors that it has logged.
pub record Tally : Type 0 where
  pub ok_count : ℕ
  pub err_count : ℕ
  pub errors : List (ClientId × (TransactionId × Text))

abbrev pub no_outcomes : Tally
no_outcomes = record { ok_count = 0; err_count = 0; errors = [] }

-- `match res`: a panic is not sent over the channel.
unfoldable pub count_outcome : Sent → Outcome TransactionError ⊤ → Tally → Tally
unfolding to_string
count_outcome sent (ok _) self = record self { ok_count = self.ok_count + 1 }
count_outcome sent (err e) self = record self {
  err_count = self.err_count + 1;
  errors = self.errors ++ (sent.client_id, (sent.transaction_id, to_string e)) ∷ [];
}
count_outcome sent panicked self = self

-- `while let Some((client_id, tx_id, res)) = tx_rx.recv().await`
unfoldable pub count_outcomes : List Sent → Tally → Tally
unfolding count_outcome
count_outcomes [] self = self
count_outcomes (sent ∷ rx) self = count_outcomes rx (count_outcome sent sent.result self)

-- A line of the log: who asked for which transaction, and why it was refused.
abbrev pub LogEntry : Type 0
LogEntry = ClientId × (TransactionId × Text)

abbrev add_accepted : Outcome TransactionError ⊤ → ℕ → ℕ
add_accepted (ok _) n = n + 1
add_accepted (err e) n = n
add_accepted panicked n = n

abbrev add_refusal : InputMessage → Outcome TransactionError ⊤ → List LogEntry → List LogEntry
add_refusal msg (ok _) entries = entries
add_refusal msg (err e) entries = (msg.client_id, (msg.transaction_id, to_string e)) ∷ entries
add_refusal msg panicked entries = entries

-- Of messages that the accounts process one after the other: how many the accounts accept.
unfoldable pub accepted : Build → List PendingTransaction → Accounts → ℕ
accepted build [] accounts = 0
accepted build (tx ∷ txs) accounts =
    add_accepted (outcome build tx.message accounts).0
      (accepted build txs (step_accounts build tx.message accounts))

-- And the others, in their order, each with the reason of its account.
unfoldable pub refusals : Build → List PendingTransaction → Accounts → List LogEntry
unfolding to_string
refusals build [] accounts = []
refusals build (tx ∷ txs) accounts =
    add_refusal tx.message (outcome build tx.message accounts).0
      (refusals build txs (step_accounts build tx.message accounts))

-- The task has counted `n` more successes, and counted and logged the failures `entries`.
abbrev Counts : ℕ → List LogEntry → Tally → Tally → Type 0
Counts n entries self self' =
    (self'.ok_count ≡ self.ok_count + n)
    × (self'.err_count ≡ self.err_count + length entries)
    × (self'.errors ≡ self.errors ++ entries)

-- One outcome, and then those behind it.
count_outcome-Counts :
    (msg : InputMessage) (sent : Sent) (result : Outcome TransactionError ⊤) (n : ℕ)
    (entries : List LogEntry) (self self' : Tally)
    → sent.client_id ≡ msg.client_id
    → sent.transaction_id ≡ msg.transaction_id
    → Counts n entries (count_outcome sent result self) self'
    → Counts (add_accepted result n) (add_refusal msg result entries) self self'
unfolding count_outcome
count_outcome-Counts msg sent (ok _) n entries self self' c t (oks, failed, logged) =
    (omega arith, failed, logged)
count_outcome-Counts msg sent (err e) n entries self self' c t (oks, failed, logged) =
    let entry : LogEntry = (sent.client_id, (sent.transaction_id, to_string e)) in
    (oks, omega arith, logged ∙ append_assoc self.errors (entry ∷ []) entries ∙ rw (c, t) refl)
count_outcome-Counts msg sent panicked n entries self self' c t h = h

count_run_sent :
    (build : Build) (txs : List PendingTransaction) (accounts : Accounts) (self : Tally)
    → Counts
        (accepted build txs accounts)
        (refusals build txs accounts)
        self
        (count_outcomes (run_sent build txs accounts) self)
unfolding count_outcomes run_sent accepted refusals
count_run_sent build [] accounts self = (omega arith, omega arith, sym (append-nil self.errors))
count_run_sent build (tx ∷ txs) accounts self =
    let result = (outcome build tx.message accounts).0 in
    let after = step_accounts build tx.message accounts in
    let sent = sent_of build tx accounts in
    let counted = count_outcome sent result self in
    count_outcome-Counts tx.message sent result (accepted build txs after)
      (refusals build txs after) self (count_outcomes (run_sent build txs after) counted) refl refl
      (count_run_sent build txs after counted)

-- While no operation panics, each message is accepted or refused.
accepted_refused :
    (result : Outcome TransactionError ⊤) (msg : InputMessage) (n : ℕ) (entries : List LogEntry)
    → result ≢ panicked
    → add_accepted result n + length (add_refusal msg result entries) ≡ n + length entries + 1
accepted_refused (ok _) msg n entries h = omega arith
accepted_refused (err e) msg n entries h = omega arith
accepted_refused panicked msg n entries h = elim (h refl) [ ]

accepted-refusals :
    (build : Build) (txs : List PendingTransaction) (accounts : Accounts)
    → AllConsistent accounts
    → accepted build txs accounts + length (refusals build txs accounts) ≡ length txs
unfolding accepted refusals
accepted-refusals build [] accounts c = omega arith
accepted-refusals build (tx ∷ txs) accounts c =
    let after = step_accounts build tx.message accounts in
    let first =
      accepted_refused (outcome build tx.message accounts).0 tx.message (accepted build txs after)
        (refusals build txs after) (outcome-returns build tx.message accounts c) in
    let others =
      accepted-refusals build txs after (step_accounts-AllConsistent build tx.message accounts c) in
    omega (arith, first, others)

length-pending_all : (c : Channel) (ms : List InputMessage) → length (pending_all c ms) ≡ length ms
length-pending_all c [] = refl
length-pending_all c (m ∷ ms) = ap (λ n. suc n) (length-pending_all c ms)

-- What the counting task makes of a file of fewer than 2^64 rows, when the receivers stay. Let the
-- accounts process the messages before the first bad row one after the other: the counter of
-- successes is the number of the messages that are accepted, the errors that are logged are those of
-- the refused messages, in their order, each with its client, its transaction and the text of the
-- reason, and the counter of failures is the number of the refused messages. Every message is
-- counted once.
pub count_outcomes_of_file :
    (build : Build) (receivers : Receivers) (all_open : AllOpen receivers) (config : ServiceConfig)
    (tx_sx signal_sx : Channel) (records : List (Option RawInputMessage))
    → length records < 2 ^ 64
    → let rx = (load_file build tx_sx signal_sx (some records)).1 in
      let self = (server_forever build receivers rx (new config)).1 in
      let counted = count_outcomes self.sent no_outcomes in
      let messages = (scan build 0 records).0 in
      let txs = pending_all tx_sx messages in
      (counted.ok_count ≡ accepted build txs [])
      × (counted.errors ≡ refusals build txs [])
      × (counted.err_count ≡ length (refusals build txs []))
      × (counted.ok_count + counted.err_count ≡ length messages)
count_outcomes_of_file build receivers all_open config tx_sx signal_sx records h =
    let (loaded, served, accounts, sent, completed) =
      load_and_serve build receivers all_open config tx_sx signal_sx records h in
    let messages = (scan build 0 records).0 in
    let txs = pending_all tx_sx messages in
    let (oks, failed, logged) = count_run_sent build txs [] no_outcomes in
    let every = accepted-refusals build txs [] none-AllConsistent in
    subst
      (λ l.
        let counted = count_outcomes l no_outcomes in
        (counted.ok_count ≡ accepted build txs [])
        × (counted.errors ≡ refusals build txs [])
        × (counted.err_count ≡ length (refusals build txs []))
        × (counted.ok_count + counted.err_count ≡ length messages))
      (sym sent)
      (omega arith, logged, omega arith, omega (arith, length-pending_all tx_sx messages))
