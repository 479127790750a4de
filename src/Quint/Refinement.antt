-- ===== src/Quint/Refinement.antt =====
-- The account of src/domain/account.rs as a state of payments.qnt, message by message.
use nda_takehome.Base.{
  ⊤, ℕ, true, Option, none, some, ◌≡◌, refl, sym, ap, subst, fun_ext, arith, ◌∙◌,
}
use nda_takehome.Base.Outcome.{Outcome, ok, err, panicked, Build, debug, release}
use nda_takehome.Collections.{get, insert, modify_at}
use nda_takehome.Collections.Laws.{get-insert, get-modify_at}
use nda_takehome.Domain.Transaction.{ClientId}
use nda_takehome.Message.{InputMessage}
use nda_takehome.Service.Error.{TransactionError}
use nda_takehome.Domain.Account.State.{Account, TransactionState, set_state, can_transition}
use nda_takehome.Domain.Account.Operations.{process, push_history}
use nda_takehome.Domain.Account.Settlement.{
  Settles, refused, deposits, withdraws, disputes, resolves, charges_back, Refuses, frozen,
  not_positive, duplicate, overdrawn, unknown, no_transition, after_deposit, after_withdrawal,
  after_dispute, after_resolve, after_chargeback,
}
use nda_takehome.Domain.Account.Invariant.{IsConsistent}
use nda_takehome.Domain.Account.Invariant.Tracking.{Transactions}
use nda_takehome.Domain.Account.History.Safety.{consistent-Settles, Reachable-IsConsistent}
use nda_takehome.Domain.Account.History.{Reachable, created, processed}
use nda_takehome.Quint.{
  SpecState, TxRecord, TxState, no_tx, step, set_record, after_step, Reaches, initial, stepped,
}

abbrev pub view_state : TransactionState → TxState
view_state TransactionState.normal = TxState.normal
view_state TransactionState.disputed = TxState.disputed
view_state TransactionState.resolved = TxState.resolved
view_state TransactionState.chargeback = TxState.chargeback

abbrev pub view_entry : Option (TransactionState × InputMessage) → TxRecord
view_entry none = no_tx
view_entry (some (s, msg)) = record { exists = true; amount = msg.amount; state = view_state s }

-- What the specification sees of an account.
abbrev pub view : Account → SpecState
view acc = record {
  available = acc.available;
  held = acc.held;
  total = acc.total;
  locked = acc.locked;
  tx_records = λ k. view_entry (get k acc.transactions);
}

-- The next state of the specification, if the code reports success.
abbrev pub next_of : Outcome TransactionError ⊤ → Account → Option SpecState
next_of (ok _) acc = some (view acc)
next_of (err _) acc = none
next_of panicked acc = none

records-insert :
    (k : ℕ) (s : TransactionState) (msg : InputMessage) (m : Transactions)
    → ◌≡◌ {A = ℕ → TxRecord}
        (set_record k (view_entry (some (s, msg))) (λ j. view_entry (get j m)))
        (λ j. view_entry (get j (insert k (s, msg) m)))
records-insert k s msg m = fun_ext λ j. ground (arith, get-insert k j (s, msg) m)

records-modify_at :
    (k : ℕ) (to s : TransactionState) (msg : InputMessage) (m : Transactions)
    → get k m ≡ some (s, msg)
    → ◌≡◌ {A = ℕ → TxRecord}
        (set_record k (view_entry (some (to, msg))) (λ j. view_entry (get j m)))
        (λ j. view_entry (get j (modify_at k (set_state to) m)))
records-modify_at k to s msg m e = fun_ext λ j. ground (arith, get-modify_at k j (set_state to) m)

abbrev pub message_step : InputMessage → Account → Option SpecState
message_step msg acc = step msg.transaction_type msg.transaction_id msg.amount (view acc)

Refuses-step :
    {acc : Account} {msg : InputMessage} {e : TransactionError}
    → Refuses acc msg e
    → message_step msg acc ≡ none
unfolding can_transition
Refuses-step (frozen l) = ground arith
Refuses-step (not_positive u t n) = ground arith
Refuses-step (duplicate entry u t p e) = ground arith
Refuses-step (overdrawn u t p e s) = ground arith
Refuses-step (unknown to u t e) = ground arith
Refuses-step (no_transition to entry u t e c) = ground arith

abbrev with_records : Account → (ℕ → TxRecord) → Option SpecState
with_records acc records = some (record (view acc) { tx_records = records })

Settles-step :
    {acc : Account} {msg : InputMessage} {r : Outcome TransactionError ⊤} {acc' : Account}
    → Settles acc msg r acc'
    → message_step msg acc ≡ next_of r acc'
Settles-step (refused why) = Refuses-step why
Settles-step {acc} {msg} (deposits u t p e) =
    deposit_step
    ∙ ap (with_records (after_deposit acc msg))
        (records-insert msg.transaction_id TransactionState.normal msg acc.transactions)
  where
    deposit_step :
        message_step msg acc
        ≡ with_records (after_deposit acc msg) (
            set_record msg.transaction_id
              (view_entry (some (TransactionState.normal, msg)))
              (λ j. view_entry (get j acc.transactions)))
    deposit_step = ground arith
Settles-step {acc} {msg} (withdraws u t p e n) =
    withdrawal_step
    ∙ ap (with_records (after_withdrawal acc msg))
        (records-insert msg.transaction_id TransactionState.normal msg acc.transactions)
  where
    withdrawal_step :
        message_step msg acc
        ≡ with_records (after_withdrawal acc msg) (
            set_record msg.transaction_id
              (view_entry (some (TransactionState.normal, msg)))
              (λ j. view_entry (get j acc.transactions)))
    withdrawal_step = ground arith
Settles-step {acc} {msg} (disputes m u t e) =
    move_step
    ∙ ap (with_records (after_dispute acc msg.transaction_id m.amount)) (
        records-modify_at msg.transaction_id TransactionState.disputed TransactionState.normal m
          acc.transactions e)
  where
    move_step :
        message_step msg acc
        ≡ with_records (after_dispute acc msg.transaction_id m.amount) (
            set_record msg.transaction_id
              (view_entry (some (TransactionState.disputed, m)))
              (λ j. view_entry (get j acc.transactions)))
    move_step = ground arith
Settles-step {acc} {msg} (resolves m u t e) =
    move_step
    ∙ ap (with_records (after_resolve acc msg.transaction_id m.amount)) (
        records-modify_at msg.transaction_id TransactionState.resolved TransactionState.disputed m
          acc.transactions e)
  where
    move_step :
        message_step msg acc
        ≡ with_records (after_resolve acc msg.transaction_id m.amount) (
            set_record msg.transaction_id
              (view_entry (some (TransactionState.resolved, m)))
              (λ j. view_entry (get j acc.transactions)))
    move_step = ground arith
Settles-step {acc} {msg} (charges_back m u t e) =
    move_step
    ∙ ap (with_records (after_chargeback acc msg.transaction_id m.amount)) (
        records-modify_at msg.transaction_id TransactionState.chargeback TransactionState.disputed m
          acc.transactions e)
  where
    move_step :
        message_step msg acc
        ≡ with_records (after_chargeback acc msg.transaction_id m.amount) (
            set_record msg.transaction_id
              (view_entry (some (TransactionState.chargeback, m)))
              (λ j. view_entry (get j acc.transactions)))
    move_step = ground arith

view-push_history :
    (build : Build) (msg : InputMessage) (acc : Account)
    → view (push_history build msg acc) ≡ view acc
view-push_history debug msg acc = refl
view-push_history release msg acc = refl

Settles-view :
    {acc : Account} {msg : InputMessage} {r : Outcome TransactionError ⊤} {acc' : Account}
    → Settles acc msg r acc'
    → view acc' ≡ after_step (next_of r acc') (view acc)
Settles-view (refused why) = refl
Settles-view (deposits u t p e) = refl
Settles-view (withdraws u t p e n) = refl
Settles-view (disputes m u t e) = refl
Settles-view (resolves m u t e) = refl
Settles-view (charges_back m u t e) = refl

-- On a consistent account the code and the specification agree on every message: the
-- specification's action is enabled exactly when the code reports success, and its next state is
-- then what the code's account looks like; when the code reports an error, the specification sees
-- no change.
pub process-refines :
    (build : Build) (msg : InputMessage) (acc : Account)
    → IsConsistent acc
    → let (r, acc') = process build msg acc in
      (message_step msg acc ≡ next_of r acc')
      × (view acc' ≡ after_step (message_step msg acc) (view acc))
process-refines build msg acc c =
    let settles = consistent-Settles build msg c in
    let same = view-push_history build msg acc in
    let enabled : message_step msg acc
        ≡ next_of (process build msg acc).0 (process build msg acc).1 =
      ap (step msg.transaction_type msg.transaction_id msg.amount) (sym same)
      ∙ Settles-step settles in
    (enabled, Settles-view settles ∙ rw (same, enabled) refl)

-- Every account that messages lead to looks like a state that the specification reaches.
Reachable-Reaches :
    (build : Build) (client_id : ClientId) (acc : Account)
    → Reachable build client_id acc
    → Reaches (view acc)
unfolding get
Reachable-Reaches build client_id _ created = initial
Reachable-Reaches build client_id _ (processed {acc} r msg) =
    subst Reaches (sym (process-refines build msg acc (Reachable-IsConsistent r)).1) (
      stepped (Reachable-Reaches build client_id acc r) msg.transaction_type msg.transaction_id
        msg.amount)
