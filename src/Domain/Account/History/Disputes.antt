-- ===== src/Domain/Account/History/Disputes.antt =====
-- A dispute and its two ends (src/domain/account.rs).
use nda_takehome.Base.{⊤, Bool, true, false, some, ◌≡◌, refl, sym, ap, ◌∙◌, arith, ◌⊎◌, inl, inr}
use nda_takehome.Base.Int.{◌+ℤ◌, ◌-ℤ◌, int_laws}
use nda_takehome.Base.Outcome.{Outcome, ok, Build, debug, release}
use nda_takehome.Collections.{get}
use nda_takehome.Collections.Laws.{get-modify_at}
use nda_takehome.Domain.Amount.{Amount}
use nda_takehome.Domain.Transaction.{TransactionType}
use nda_takehome.Message.{InputMessage}
use nda_takehome.Service.Error.{TransactionError}
use nda_takehome.Domain.Account.State.{Account, normal, disputed, can_transition, set_state}
use nda_takehome.Domain.Account.Operations.{process, push_history}
use nda_takehome.Domain.Account.Settlement.{
  Settles, Refuses, refused, deposits, withdraws, disputes, resolves, charges_back, frozen,
  not_positive, duplicate, overdrawn, unknown, no_transition, after_dispute, after_resolve,
  after_chargeback,
}
use nda_takehome.Domain.Account.Invariant.{IsConsistent}
use nda_takehome.Domain.Account.History.Safety.{consistent-Settles, process-IsConsistent}

-- What a client sees of an account besides its transactions.
pub record Balances : Type 0 where
  pub available : Amount
  pub held : Amount
  pub total : Amount
  pub locked : Bool

abbrev pub balances : Account → Balances
balances acc = record {
  available = acc.available;
  held = acc.held;
  total = acc.total;
  locked = acc.locked;
}

balances-push_history :
    (build : Build) (msg : InputMessage) (acc : Account)
    → balances (push_history build msg acc) ≡ balances acc
balances-push_history debug msg acc = refl
balances-push_history release msg acc = refl

transactions-push_history :
    (build : Build) (msg : InputMessage) (acc : Account)
    → (push_history build msg acc).transactions ≡ acc.transactions
transactions-push_history debug msg acc = refl
transactions-push_history release msg acc = refl

-- A dispute that succeeds is of a transaction in its normal state.
Settles-dispute :
    {acc : Account} {msg : InputMessage} {r : Outcome TransactionError ⊤} {acc' : Account}
    → Settles acc msg r acc'
    → r ≡ ok tt
    → msg.transaction_type ≡ TransactionType.dispute
    → (original : InputMessage) × (get msg.transaction_id acc.transactions
        ≡ some (normal, original))
      × (acc.locked ≡ false)
      × (acc' ≡ after_dispute acc msg.transaction_id original.amount)
Settles-dispute (refused why) h t = ground arith
Settles-dispute (deposits _ t' _ _) h t = ground arith
Settles-dispute (withdraws _ t' _ _ _) h t = ground arith
Settles-dispute (disputes original u t' e) h t = (original, e, u, refl)
Settles-dispute (resolves _ _ t' _) h t = ground arith
Settles-dispute (charges_back _ _ t' _) h t = ground arith

-- The two ends of a dispute, on an account that is not locked.
module _ {acc : Account} {msg : InputMessage} {original : InputMessage}
    (unlocked : acc.locked ≡ false)
    (e : get msg.transaction_id acc.transactions ≡ some (disputed, original)) where
  end_accepted :
      {why : TransactionError}
      → Refuses acc msg why
      → (msg.transaction_type ≡ TransactionType.resolve)
        ⊎ (msg.transaction_type ≡ TransactionType.chargeback)
      → ⊥
  unfolding can_transition
  end_accepted (frozen l) t = ground arith
  end_accepted (not_positive _ t' _) t = ground arith
  end_accepted (duplicate _ _ t' _ _) t = ground arith
  end_accepted (overdrawn _ t' _ _ _) t = ground arith
  end_accepted (unknown _ _ _ e') t = ground arith
  end_accepted (no_transition to entry u t' e' c) t = ground arith

  Settles-resolve :
      {r : Outcome TransactionError ⊤} {acc' : Account}
      → Settles acc msg r acc'
      → msg.transaction_type ≡ TransactionType.resolve
      → (r ≡ ok tt) × (acc' ≡ after_resolve acc msg.transaction_id original.amount)
  Settles-resolve (refused why) t = elim (end_accepted why (inl t)) [ ]
  Settles-resolve (deposits _ t' _ _) t = ground arith
  Settles-resolve (withdraws _ t' _ _ _) t = ground arith
  Settles-resolve (disputes _ _ t' _) t = ground arith
  Settles-resolve (resolves found u t' e') t = ground arith
  Settles-resolve (charges_back _ _ t' _) t = ground arith

  Settles-chargeback :
      {r : Outcome TransactionError ⊤} {acc' : Account}
      → Settles acc msg r acc'
      → msg.transaction_type ≡ TransactionType.chargeback
      → (r ≡ ok tt) × (acc' ≡ after_chargeback acc msg.transaction_id original.amount)
  Settles-chargeback (refused why) t = elim (end_accepted why (inr t)) [ ]
  Settles-chargeback (deposits _ t' _ _) t = ground arith
  Settles-chargeback (withdraws _ t' _ _ _) t = ground arith
  Settles-chargeback (disputes _ _ t' _) t = ground arith
  Settles-chargeback (resolves _ _ t' _) t = ground arith
  Settles-chargeback (charges_back found u t' e') t = ground arith

abbrev resolve_balances : Amount → Balances → Balances
resolve_balances amount b = record b { available = b.available +ℤ amount; held = b.held -ℤ amount }

abbrev chargeback_balances : Amount → Balances → Balances
chargeback_balances amount b = record b {
  held = b.held -ℤ amount;
  total = b.total -ℤ amount;
  locked = true;
}

-- Without the amount, and locked.
abbrev pub removed : Amount → Balances → Balances
removed amount b = record b {
  available = b.available -ℤ amount;
  total = b.total -ℤ amount;
  locked = true;
}

take_back : (a b : Amount) → a -ℤ b +ℤ b ≡ a
take_back a b = omega int_laws

give_back : (a b : Amount) → a +ℤ b -ℤ b ≡ a
give_back a b = omega int_laws

-- What a message finds of the account `acc` when the dispute of `key` has just succeeded.
module _ (build : Build) (next : InputMessage) (acc now : Account) (original : InputMessage)
    (dispute_done : now ≡ after_dispute acc next.transaction_id original.amount) where
  disputed_balances :
      balances (push_history build next now)
      ≡ balances (after_dispute acc next.transaction_id original.amount)
  disputed_balances = balances-push_history build next now ∙ ap balances dispute_done

  disputed_entry :
      get next.transaction_id acc.transactions ≡ some (normal, original)
      → get next.transaction_id (push_history build next now).transactions
        ≡ some (disputed, original)
  disputed_entry e =
      let key = next.transaction_id in
      ap (get key)
        (transactions-push_history build next now ∙ ap (λ a. a.transactions) dispute_done)
      ∙ ground (arith, get-modify_at key key (set_state disputed) acc.transactions)

  module _ (c : IsConsistent now) (u : acc.locked ≡ false)
      (e : get next.transaction_id acc.transactions ≡ some (normal, original)) where
    disputed_unlocked : (push_history build next now).locked ≡ false
    disputed_unlocked = ap (λ b. b.locked) disputed_balances ∙ u

    resolve_restores :
        next.transaction_type ≡ TransactionType.resolve
        → let (r, resolved_now) = process build next now in
          (r ≡ ok tt) × (balances resolved_now ≡ balances acc)
    resolve_restores t =
        let (succeeds, effect) =
          Settles-resolve disputed_unlocked (disputed_entry e) (consistent-Settles build next c)
            t in
        (
          succeeds,
          ap balances effect
              ∙ ap (resolve_balances original.amount) disputed_balances
              ∙ rw (take_back acc.available original.amount, give_back acc.held original.amount)
                  refl,
        )

    chargeback_removes :
        next.transaction_type ≡ TransactionType.chargeback
        → let (r, reversed_now) = process build next now in
          (r ≡ ok tt) × (balances reversed_now ≡ removed original.amount (balances acc))
    chargeback_removes t =
        let (succeeds, effect) =
          Settles-chargeback disputed_unlocked (disputed_entry e) (consistent-Settles build next c)
            t in
        (
          succeeds,
          ap balances effect
              ∙ ap (chargeback_balances original.amount) disputed_balances
              ∙ rw (give_back acc.held original.amount) refl,
        )

-- A dispute that succeeds can be ended in both ways. A resolve that comes next succeeds, and brings
-- all balances back to what they were before the dispute. A chargeback that comes next succeeds,
-- takes the amount of the original transaction out of what is available and out of the total, holds
-- what was held before, and locks the account. The account is consistent, and the amounts in the
-- three messages make no difference.
pub dispute_ends :
    (build : Build) (contest resolution reversal : InputMessage) (acc : Account)
    → IsConsistent acc
    → contest.transaction_type ≡ TransactionType.dispute
    → resolution.transaction_type ≡ TransactionType.resolve
    → reversal.transaction_type ≡ TransactionType.chargeback
    → resolution.transaction_id ≡ contest.transaction_id
    → reversal.transaction_id ≡ contest.transaction_id
    → (process build contest acc).0 ≡ ok tt
    → let disputed_now = (process build contest acc).1 in
      let (resolution_result, resolved_now) = process build resolution disputed_now in
      let (reversal_result, reversed_now) = process build reversal disputed_now in
      (original : InputMessage) × (get contest.transaction_id acc.transactions
        ≡ some (normal, original))
      × (resolution_result ≡ ok tt)
      × (balances resolved_now ≡ balances acc)
      × (reversal_result ≡ ok tt)
      × (balances reversed_now ≡ removed original.amount (balances acc))
dispute_ends build contest resolution reversal acc c t t1 t2 same1 same2 h =
    let before = push_history build contest acc in
    let now = (process build contest acc).1 in
    let (original, e, u, done) = Settles-dispute (consistent-Settles build contest c) h t in
    let c' = process-IsConsistent build contest c in
    let same_balances = balances-push_history build contest acc in
    let (resolve_ok, restored) =
      resolve_restores build resolution before now original (rw same1 done) c' u (rw same1 e) t1 in
    let (chargeback_ok, gone) =
      chargeback_removes build reversal before now original (rw same2 done) c' u (rw same2 e) t2 in
    (
      original,
      ap (get contest.transaction_id) (sym (transactions-push_history build contest acc)) ∙ e,
      resolve_ok,
      restored ∙ same_balances,
      chargeback_ok,
      gone ∙ ap (removed original.amount) same_balances,
    )
