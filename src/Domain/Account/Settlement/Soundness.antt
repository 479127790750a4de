-- ===== src/Domain/Account/Settlement/Soundness.antt =====
-- The operations of src/domain/account.rs and the relation that says what they do.
use nda_takehome.Base.{⊤, true, false, some, ◌≡◌, refl, inl, inr, arith, Bool-cases, Option-cases}
use nda_takehome.Base.Int.{ltb_ℤ}
use nda_takehome.Base.Outcome.{Outcome, err, Build}
use nda_takehome.Collections.{get}
use nda_takehome.Collections.Laws.{contains_key-some, contains_key-none}
use nda_takehome.Domain.Amount
use nda_takehome.Domain.Transaction.{TransactionType}
use nda_takehome.Message.{InputMessage}
use nda_takehome.Service.Error.{TransactionError}
use nda_takehome.Domain.Account.State.{
  Account, TransactionState, normal, disputed, resolved, chargeback, can_transition,
}
use nda_takehome.Domain.Account.Check.{check_invariants}
use nda_takehome.Domain.Account.Operations.{
  push_history, shared_prestep, process_deposit, process_withdrawal, process_dispute,
  process_resolve, process_chargeback, process, dispatch,
}
use nda_takehome.Domain.Account.Operations.Unlocked.{
  unlocked_deposit, unlocked_withdrawal, unlocked_dispute, unlocked_resolve, unlocked_chargeback,
  AccountAction,
}
use nda_takehome.Base.Action.{◌>>◌}
use nda_takehome.Domain.Account.Settlement.{
  Settles, refused, deposits, withdraws, disputes, resolves, charges_back, not_positive, duplicate,
  overdrawn, unknown, no_transition, target,
}
use nda_takehome.Domain.Account.Settlement.Prestep.{after_prestep}

-- Behind the shared step: the account is not locked.
module _ (msg : InputMessage) (self : Account) (unlocked : self.locked ≡ false) where
  deposit-Settles :
      msg.transaction_type ≡ TransactionType.deposit
      → Settles self msg (unlocked_deposit msg self).0 (unlocked_deposit msg self).1
  unfolding unlocked_deposit
  deposit-Settles t = elim (Bool-cases (Amount.is_positive msg.amount)) [
    | inr n ↦ rw n (refused (not_positive unlocked (rw t refl) n))
    | inl p ↦ elim (Option-cases (get msg.transaction_id self.transactions)) [
      | inr (entry, e) ↦
          rw (p, contains_key-some msg.transaction_id self.transactions e)
            (refused (duplicate entry unlocked (rw t refl) p e))
      | inl e ↦
          rw (p, contains_key-none msg.transaction_id self.transactions e) (deposits unlocked t p e)
    ]
  ]

  withdrawal-Settles :
      msg.transaction_type ≡ TransactionType.withdrawal
      → Settles self msg (unlocked_withdrawal msg self).0 (unlocked_withdrawal msg self).1
  unfolding unlocked_withdrawal
  withdrawal-Settles t = elim (Bool-cases (Amount.is_positive msg.amount)) [
    | inr n ↦ rw n (refused (not_positive unlocked (rw t refl) n))
    | inl p ↦ elim (Option-cases (get msg.transaction_id self.transactions)) [
      | inr (entry, e) ↦
          rw (p, contains_key-some msg.transaction_id self.transactions e)
            (refused (duplicate entry unlocked (rw t refl) p e))
      | inl e ↦ elim (Bool-cases (ltb_ℤ self.available msg.amount)) [
        | inl short ↦
            rw (p, contains_key-none msg.transaction_id self.transactions e, short)
              (refused (overdrawn unlocked t p e short))
        | inr enough ↦
            rw (p, contains_key-none msg.transaction_id self.transactions e, enough)
              (withdraws unlocked t p e enough)
      ]
    ]
  ]

  settled :
      (op : AccountAction ⊤) {r : Outcome TransactionError ⊤} {acc : Account}
      → Settles self msg r acc
      → op self ≡ (r, acc)
      → Settles self msg (op self).0 (op self).1
  settled op s p = rw p s

  -- The refusals that the operations on a recorded transaction share.
  cannot :
      (to : TransactionState) {e : TransactionError} (entry : TransactionState × InputMessage)
      → target msg.transaction_type ≡ some to
      → get msg.transaction_id self.transactions ≡ some entry
      → can_transition entry.0 to ≡ err e
      → Settles self msg (err e) self
  cannot to entry t e c = refused (no_transition to entry unlocked t e c)

  dispute-Settles :
      msg.transaction_type ≡ TransactionType.dispute
      → let (r, acc) = unlocked_dispute msg.transaction_id self in Settles self msg r acc
  unfolding unlocked_dispute
  dispute-Settles t =
      let op = unlocked_dispute msg.transaction_id in
      let t' : target msg.transaction_type ≡ some disputed = rw t refl in
      elim (Option-cases (get msg.transaction_id self.transactions)) [
        | inl e ↦ settled op (refused (unknown disputed unlocked t' e)) (ground arith)
        | inr ((normal, msg'), e) ↦ settled op (disputes msg' unlocked t e) (ground arith)
        | inr ((disputed, msg'), e) ↦
            settled op (cannot disputed (disputed, msg') t' e (unfold can_transition in refl))
              (ground arith)
        | inr ((resolved, msg'), e) ↦
            settled op (cannot disputed (resolved, msg') t' e (unfold can_transition in refl))
              (ground arith)
        | inr ((chargeback, msg'), e) ↦
            settled op (cannot disputed (chargeback, msg') t' e (unfold can_transition in refl))
              (ground arith)
      ]

  resolve-Settles :
      msg.transaction_type ≡ TransactionType.resolve
      → let (r, acc) = unlocked_resolve msg.transaction_id self in Settles self msg r acc
  unfolding unlocked_resolve
  resolve-Settles t =
      let op = unlocked_resolve msg.transaction_id in
      let t' : target msg.transaction_type ≡ some resolved = rw t refl in
      elim (Option-cases (get msg.transaction_id self.transactions)) [
        | inl e ↦ settled op (refused (unknown resolved unlocked t' e)) (ground arith)
        | inr ((normal, msg'), e) ↦
            settled op (cannot resolved (normal, msg') t' e (unfold can_transition in refl))
              (ground arith)
        | inr ((disputed, msg'), e) ↦ settled op (resolves msg' unlocked t e) (ground arith)
        | inr ((resolved, msg'), e) ↦
            settled op (cannot resolved (resolved, msg') t' e (unfold can_transition in refl))
              (ground arith)
        | inr ((chargeback, msg'), e) ↦
            settled op (cannot resolved (chargeback, msg') t' e (unfold can_transition in refl))
              (ground arith)
      ]

  chargeback-Settles :
      msg.transaction_type ≡ TransactionType.chargeback
      → let (r, acc) = unlocked_chargeback msg.transaction_id self in Settles self msg r acc
  unfolding unlocked_chargeback
  chargeback-Settles t =
      let op = unlocked_chargeback msg.transaction_id in
      let t' : target msg.transaction_type ≡ some chargeback = rw t refl in
      elim (Option-cases (get msg.transaction_id self.transactions)) [
        | inl e ↦ settled op (refused (unknown chargeback unlocked t' e)) (ground arith)
        | inr ((normal, msg'), e) ↦
            settled op (cannot chargeback (normal, msg') t' e (unfold can_transition in refl))
              (ground arith)
        | inr ((disputed, msg'), e) ↦ settled op (charges_back msg' unlocked t e) (ground arith)
        | inr ((resolved, msg'), e) ↦
            settled op (cannot chargeback (resolved, msg') t' e (unfold can_transition in refl))
              (ground arith)
        | inr ((chargeback, msg'), e) ↦
            settled op (cannot chargeback (chargeback, msg') t' e (unfold can_transition in refl))
              (ground arith)
      ]

-- In either build, if the debug assertions hold before it, an operation settles its message as the
-- relation `Settles` says, branch by branch: it succeeds and makes exactly the change of its type,
-- or it is refused for a stated reason and changes nothing but the debug history.
pub process-Settles :
    (build : Build) (msg : InputMessage) (acc : Account)
    → check_invariants acc ≡ true
    → let (r, acc') = process build msg acc in Settles (push_history build msg acc) msg r acc'
unfolding process process_deposit process_withdrawal process_dispute process_resolve
    process_chargeback
process-Settles build msg acc checked = dispatch-Settles msg.transaction_type refl
  where
    settles_by :
        (body : AccountAction ⊤)
        → ((u : Account) → u.locked ≡ false → Settles u msg (body u).0 (body u).1)
        → let (r, acc') = (shared_prestep build msg >> body) acc in
          Settles (push_history build msg acc) msg r acc'
    settles_by body = after_prestep build msg acc body checked

    dispatch-Settles :
        (type : TransactionType)
        → msg.transaction_type ≡ type
        → let (r, acc') = dispatch type build msg acc in
          Settles (push_history build msg acc) msg r acc'
    dispatch-Settles TransactionType.deposit t =
        settles_by (unlocked_deposit msg) (λ u h. deposit-Settles msg u h t)
    dispatch-Settles TransactionType.withdrawal t =
        settles_by (unlocked_withdrawal msg) (λ u h. withdrawal-Settles msg u h t)
    dispatch-Settles TransactionType.dispute t =
        settles_by (unlocked_dispute msg.transaction_id) (λ u h. dispute-Settles msg u h t)
    dispatch-Settles TransactionType.resolve t =
        settles_by (unlocked_resolve msg.transaction_id) (λ u h. resolve-Settles msg u h t)
    dispatch-Settles TransactionType.chargeback t =
        settles_by (unlocked_chargeback msg.transaction_id) (λ u h. chargeback-Settles msg u h t)
