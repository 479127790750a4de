-- ===== src/Domain/Account/History/Lifecycle.antt =====
-- The life cycle of a transaction and of the lock (src/domain/account.rs).
use nda_takehome.Base.{
  ⊤, ℕ, true, not, none, some, [], ◌∷◌, ◌≡◌, ◌↔◌, refl, sym, ap, subst, ◌∙◌, arith, ◌==◌, ==_iff,
  is_empty, ◌⊎◌, inl, inr, Bool-cases,
}
use nda_takehome.Base.Outcome.{Outcome, ok, err, Build, debug, release}
use nda_takehome.Collections.{HashSet, get, insert, modify_at, contains}
use nda_takehome.Collections.Laws.{get-insert, get-modify_at}
use nda_takehome.Domain.Transaction.{ClientId, TransactionId, TransactionType}
use nda_takehome.Message.{InputMessage}
use nda_takehome.Service.Error.{TransactionError, account_locked}
use nda_takehome.Domain.Account.State.{
  Account, TransactionState, normal, disputed, resolved, chargeback, set_state,
}
use nda_takehome.Domain.Account.Operations.{process, push_history}
use nda_takehome.Domain.Account.Settlement.{
  Settles, refused, deposits, withdraws, disputes, resolves, charges_back, frozen, not_positive,
  duplicate, overdrawn, unknown, no_transition,
}
use nda_takehome.Domain.Account.Settlement.Prestep.{locked-push_history}
use nda_takehome.Domain.Account.Invariant.{IsConsistent}
use nda_takehome.Domain.Account.Invariant.Tracking.{Transactions}
use nda_takehome.Domain.Account.Invariant.Checks.{member_entry}
use nda_takehome.Domain.Account.History.Safety.{consistent-Settles, Reachable-IsConsistent}
use nda_takehome.Domain.Account.History.{Reachable}

-- How the state of transaction `k` may change when `msg` is processed with result `r`.
pub data Moves (msg : InputMessage) (r : Outcome TransactionError ⊤) (k : TransactionId)
    : TransactionState → TransactionState → Type 0 where
  stays : {s : TransactionState} → Moves msg r k s s
  disputed_by :
      r ≡ ok tt
      → k ≡ msg.transaction_id
      → msg.transaction_type ≡ TransactionType.dispute
      → Moves msg r k normal disputed
  resolved_by :
      r ≡ ok tt
      → k ≡ msg.transaction_id
      → msg.transaction_type ≡ TransactionType.resolve
      → Moves msg r k disputed resolved
  charged_back_by :
      r ≡ ok tt
      → k ≡ msg.transaction_id
      → msg.transaction_type ≡ TransactionType.chargeback
      → Moves msg r k disputed chargeback

-- The transaction is still recorded, with the same message, and its state has moved so.
abbrev pub Follows :
    InputMessage
    → Outcome TransactionError ⊤
    → TransactionId
    → TransactionState × InputMessage
    → Transactions
    → Type 0
Follows msg r k (s, original) m =
    (s' : TransactionState) × (get k m ≡ some (s', original)) × Moves msg r k s s'

insert-Follows :
    (msg : InputMessage) (r : Outcome TransactionError ⊤) (k j : TransactionId)
    (entry fresh : TransactionState × InputMessage) (m : Transactions)
    → get k m ≡ some entry
    → get j m ≡ none
    → Follows msg r k entry (insert j fresh m)
insert-Follows msg r k j entry fresh m e new =
    (entry.0, ground (arith, get-insert j k fresh m), stays)

modify_at-Follows :
    (msg : InputMessage) (k : TransactionId) (from to : TransactionState) (original : InputMessage)
    (entry : TransactionState × InputMessage) (m : Transactions)
    → get k m ≡ some entry
    → get msg.transaction_id m ≡ some (from, original)
    → (k ≡ msg.transaction_id → Moves msg (ok tt) k from to)
    → Follows msg (ok tt) k entry (modify_at msg.transaction_id (set_state to) m)
modify_at-Follows msg k from to original entry m e e' move =
    elim (Bool-cases (k == msg.transaction_id)) [
      | inl same ↦
          let at : k ≡ msg.transaction_id = (==_iff k msg.transaction_id).0 same in
          let state : from ≡ entry.0 = ground arith in
          (
            to,
            ground (arith, get-modify_at msg.transaction_id k (set_state to) m),
            subst (λ s. Moves msg (ok tt) k s to) state (move at),
          )
      | inr other ↦
          (entry.0, ground (arith, get-modify_at msg.transaction_id k (set_state to) m), stays)
    ]

Settles-Follows :
    {acc : Account} {msg : InputMessage} {r : Outcome TransactionError ⊤} {acc' : Account}
    (k : TransactionId) (entry : TransactionState × InputMessage)
    → Settles acc msg r acc'
    → get k acc.transactions ≡ some entry
    → Follows msg r k entry acc'.transactions
Settles-Follows k entry (refused why) h = (entry.0, h, stays)
Settles-Follows {acc} {msg = msg} k entry (deposits u t p e) h =
    insert-Follows msg (ok tt) k msg.transaction_id entry (normal, msg) acc.transactions h e
Settles-Follows {acc} {msg = msg} k entry (withdraws u t p e n) h =
    insert-Follows msg (ok tt) k msg.transaction_id entry (normal, msg) acc.transactions h e
Settles-Follows {acc} {msg = msg} k entry (disputes original u t e) h =
    modify_at-Follows msg k normal disputed original entry acc.transactions h e
      λ at. disputed_by refl at t
Settles-Follows {acc} {msg = msg} k entry (resolves original u t e) h =
    modify_at-Follows msg k disputed resolved original entry acc.transactions h e
      λ at. resolved_by refl at t
Settles-Follows {acc} {msg = msg} k entry (charges_back original u t e) h =
    modify_at-Follows msg k disputed chargeback original entry acc.transactions h e
      λ at. charged_back_by refl at t

get-push_history :
    (build : Build) (msg : InputMessage) (acc : Account)
    → (push_history build msg acc).transactions ≡ acc.transactions
get-push_history debug msg acc = refl
get-push_history release msg acc = refl

-- Whatever message a consistent account processes, a transaction that is recorded stays recorded
-- with the same message, and so the same amount; its state stays, or moves from normal to
-- disputed, from disputed to resolved or from disputed to chargeback, each only by a message of
-- that type that names the transaction and succeeds.
pub process-Follows :
    (build : Build) (msg : InputMessage) (acc : Account) (k : TransactionId)
    (entry : TransactionState × InputMessage)
    → IsConsistent acc
    → get k acc.transactions ≡ some entry
    → Follows msg (process build msg acc).0 k entry (process build msg acc).1.transactions
process-Follows build msg acc k entry c h =
    Settles-Follows k entry (consistent-Settles build msg c) (rw (get-push_history build msg acc) h)

-- Whatever message a consistent account processes, a transaction that is resolved or charged back
-- keeps its state and its message.
process_terminal :
    (build : Build) (msg : InputMessage) (acc : Account) (k : TransactionId) (s : TransactionState)
    (original : InputMessage)
    → IsConsistent acc
    → (s ≡ resolved) ⊎ (s ≡ chargeback)
    → get k acc.transactions ≡ some (s, original)
    → get k (process build msg acc).1.transactions ≡ some (s, original)
process_terminal build msg acc k s original c terminal h =
    let (s', e, move) = process-Follows build msg acc k (s, original) c h in
    e ∙ ap (λ t. some (t, original)) (Moves-terminal move terminal)
  where
    Moves-terminal :
        {r : Outcome TransactionError ⊤} {a b : TransactionState}
        → Moves msg r k a b
        → (a ≡ resolved) ⊎ (a ≡ chargeback)
        → b ≡ a
    Moves-terminal stays t = refl
    Moves-terminal (disputed_by _ _ _) t = ground arith
    Moves-terminal (resolved_by _ _ _) t = ground arith
    Moves-terminal (charged_back_by _ _ _) t = ground arith

Settles-locked :
    {acc : Account} {msg : InputMessage} {r : Outcome TransactionError ⊤} {acc' : Account}
    → Settles acc msg r acc'
    → acc.locked ≡ true
    → (r ≡ err account_locked) × (acc' ≡ acc)
Settles-locked (refused (frozen l)) h = (refl, refl)
Settles-locked (refused (not_positive u _ _)) h = ground arith
Settles-locked (refused (duplicate _ u _ _ _)) h = ground arith
Settles-locked (refused (overdrawn u _ _ _ _)) h = ground arith
Settles-locked (refused (unknown _ u _ _)) h = ground arith
Settles-locked (refused (no_transition _ _ u _ _ _)) h = ground arith
Settles-locked (deposits u _ _ _) h = ground arith
Settles-locked (withdraws u _ _ _ _) h = ground arith
Settles-locked (disputes _ u _ _) h = ground arith
Settles-locked (resolves _ u _ _) h = ground arith
Settles-locked (charges_back _ u _ _) h = ground arith

pub process_locked :
    (build : Build) (msg : InputMessage) (acc : Account)
    → IsConsistent acc
    → acc.locked ≡ true
    → ((process build msg acc).0 ≡ err account_locked)
      × ((process build msg acc).1 ≡ push_history build msg acc)
process_locked build msg acc c l =
    Settles-locked (consistent-Settles build msg c) (locked-push_history build msg acc ∙ l)

nonempty_member : (xs : HashSet) → not (is_empty xs) ≡ true → (k : ℕ) × (contains k xs ≡ true)
unfolding contains
nonempty_member [] h = ground arith
nonempty_member (x ∷ xs) h = (x, ground arith)

member_nonempty : (xs : HashSet) (k : ℕ) → contains k xs ≡ true → not (is_empty xs) ≡ true
unfolding contains
member_nonempty [] k h = ground arith
member_nonempty (x ∷ xs) k h = refl

pub locked_iff_charged_back :
    (acc : Account)
    → IsConsistent acc
    → (acc.locked ≡ true) ↔ (
        (k : TransactionId) × (original : InputMessage) × (get k acc.transactions
          ≡ some (chargeback, original)))
locked_iff_charged_back acc c = (
  λ l.
      let (k, member) = nonempty_member acc.chargebacks (sym c.locked_iff ∙ l) in
      let (original, e) = member_entry acc c chargeback k member in (k, original, e),
  λ (k, original, e).
      c.locked_iff ∙ member_nonempty acc.chargebacks k (c.tracks_chargeback k ∙ rw e refl),
)

-- A message locks the account just when it is a chargeback that succeeds.
Settles-locked_iff :
    {acc : Account} {msg : InputMessage} {r : Outcome TransactionError ⊤} {acc' : Account}
    → Settles acc msg r acc'
    → (acc'.locked ≡ true)
      ↔ ((acc.locked ≡ true) ⊎ ((r ≡ ok tt) × (msg.transaction_type ≡ TransactionType.chargeback)))
Settles-locked_iff (refused why) = (λ l. inl l, λ h. ground arith)
Settles-locked_iff (deposits _ t _ _) = (λ l. inl l, λ h. ground arith)
Settles-locked_iff (withdraws _ t _ _ _) = (λ l. inl l, λ h. ground arith)
Settles-locked_iff (disputes _ _ t _) = (λ l. inl l, λ h. ground arith)
Settles-locked_iff (resolves _ _ t _) = (λ l. inl l, λ h. ground arith)
Settles-locked_iff (charges_back _ _ t _) = (λ l. inr (refl, t), λ h. refl)

-- When an account is locked. Whatever messages an account has processed, it is locked exactly when
-- one of its transactions has been charged back. Whatever message comes next, the account is locked
-- behind it exactly when it was locked before, or the message is a chargeback that succeeds.
pub Reachable-locked_iff :
    (build : Build) (client_id : ClientId) (acc : Account) (msg : InputMessage)
    → Reachable build client_id acc
    → ((acc.locked ≡ true) ↔ (
        (k : TransactionId) × (original : InputMessage) × (get k acc.transactions
          ≡ some (chargeback, original))))
      × (((process build msg acc).1.locked ≡ true) ↔ (
          (acc.locked ≡ true)
          ⊎ (((process build msg acc).0 ≡ ok tt)
              × (msg.transaction_type ≡ TransactionType.chargeback))))
Reachable-locked_iff build client_id acc msg r =
    let c = Reachable-IsConsistent r in
    let locks = Settles-locked_iff (consistent-Settles build msg c) in
    (
      locked_iff_charged_back acc c,
      subst
          (λ b. ((process build msg acc).1.locked ≡ true) ↔ (
            (b ≡ true)
            ⊎ (((process build msg acc).0 ≡ ok tt)
                × (msg.transaction_type ≡ TransactionType.chargeback))))
          (locked-push_history build msg acc) locks,
    )
