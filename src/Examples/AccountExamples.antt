-- ===== src/Examples/AccountExamples.antt =====
-- The theorems on one account, at an account with a payment in, a payment out and a dispute.
use nda_takehome.Base.{true, some, ◌≡◌, ◌≢◌, ◌↔◌, ◌⊎◌, refl}
use nda_takehome.Base.Int.{pos, negsuc, ◌-ℤ◌, ◌+ℤ◌}
use nda_takehome.Base.Outcome.{debug, release, ok, panicked}
use nda_takehome.Collections.{get, insert, contains_key, modify_at, add, remove, contains}
use nda_takehome.Message.{InputMessage}
use nda_takehome.Domain.Transaction.{TransactionType, resolve}
use nda_takehome.Domain.Account.State.{new, can_transition, execute, normal, chargeback}
use nda_takehome.Domain.Account.Check.{check_invariants}
use nda_takehome.Domain.Account.Operations.{
  process, process_deposit, process_withdrawal, process_dispute, process_chargeback, shared_prestep,
  assert_invariants, push_history,
}
use nda_takehome.Domain.Account.Operations.Unlocked.{
  unlocked_deposit, unlocked_withdrawal, unlocked_dispute, unlocked_chargeback, do_transition,
  stored_amount,
}
use nda_takehome.Domain.Account.Settlement.{Settles}
use nda_takehome.Domain.Account.Settlement.Soundness.{process-Settles}
use nda_takehome.Domain.Account.Invariant.{IsConsistent}
use nda_takehome.Domain.Account.Invariant.Checks.{check_invariants_lem}
use nda_takehome.Domain.Account.History.{created}
use nda_takehome.Domain.Account.History.Safety.{
  Reachable-check_invariants, process-IsConsistent, Reachable-IsConsistent,
}
use nda_takehome.Domain.Account.History.Builds.{process_builds_agree, logged}
use nda_takehome.Domain.Account.History.Lifecycle.{Follows, process-Follows, Reachable-locked_iff}
use nda_takehome.Domain.Account.History.Disputes.{balances, removed, dispute_ends}
use nda_takehome.Domain.Account.History.Conservation.{net_flow, Reachable-net_flow}
use nda_takehome.Quint.{after_step}
use nda_takehome.Quint.Refinement.{process-refines, view, message_step, next_of}
use nda_takehome.Quint.Invariants.{Reachable-SafetyInv, SafetyInv}
use nda_takehome.Examples.{
  pay_in, contest, take_back, paid, contested, frozen_account, paid_reached, contested_reached,
  frozen_reached,
}

process-refines_example :
    (message_step contest paid ≡ next_of (process release contest paid).0 contested)
    × (view contested ≡ after_step (message_step contest paid) (view paid))
process-refines_example = process-refines release contest paid (Reachable-IsConsistent paid_reached)

Reachable-SafetyInv_example : SafetyInv (view frozen_account)
Reachable-SafetyInv_example = Reachable-SafetyInv release 1 frozen_account frozen_reached

Reachable-check_invariants_example :
    (check_invariants (new 1) ≡ true)
    × ((process debug pay_in (new 1)).0 ≢ panicked)
    × (check_invariants (process debug pay_in (new 1)).1 ≡ true)
Reachable-check_invariants_example = Reachable-check_invariants debug 1 (new 1) pay_in created

process-Settles_example :
    Settles (push_history release contest paid) contest (process release contest paid).0 contested
process-Settles_example =
    process-Settles release contest paid
      (check_invariants_lem paid (Reachable-IsConsistent paid_reached))

process-IsConsistent_example : IsConsistent frozen_account
process-IsConsistent_example =
    process-IsConsistent release take_back {acc = contested}
      (Reachable-IsConsistent contested_reached)

Reachable-net_flow_example : frozen_account.total ≡ net_flow frozen_account.transactions
Reachable-net_flow_example = Reachable-net_flow release 1 frozen_account frozen_reached

-- The tests that the examples compute what they should.
frozen_total : frozen_account.total ≡ negsuc 19999
unfolding process process_deposit process_withdrawal process_dispute process_chargeback
    shared_prestep assert_invariants unlocked_deposit unlocked_withdrawal unlocked_dispute
    unlocked_chargeback do_transition stored_amount can_transition execute get insert contains_key
    modify_at add remove contains ◌-ℤ◌ ◌+ℤ◌
frozen_total = refl

paid_entry : get 1 paid.transactions ≡ some (normal, pay_in)
unfolding process process_deposit process_withdrawal process_dispute process_chargeback
    shared_prestep assert_invariants unlocked_deposit unlocked_withdrawal unlocked_dispute
    unlocked_chargeback do_transition stored_amount can_transition execute get insert contains_key
    modify_at add remove contains ◌-ℤ◌ ◌+ℤ◌
paid_entry = refl

frozen_entry : get 1 frozen_account.transactions ≡ some (chargeback, pay_in)
unfolding process process_deposit process_withdrawal process_dispute process_chargeback
    shared_prestep assert_invariants unlocked_deposit unlocked_withdrawal unlocked_dispute
    unlocked_chargeback do_transition stored_amount can_transition execute get insert contains_key
    modify_at add remove contains ◌-ℤ◌ ◌+ℤ◌
frozen_entry = refl

process-Follows_example :
    Follows contest (process release contest paid).0 1 (normal, pay_in) contested.transactions
process-Follows_example =
    process-Follows release contest paid 1 (normal, pay_in) (Reachable-IsConsistent paid_reached)
      paid_entry

abbrev resolution : InputMessage
resolution = record {
  chrono_order = 3;
  transaction_type = resolve;
  client_id = 1;
  transaction_id = 1;
  amount = pos 7;
}

contest_accepted : (process release contest paid).0 ≡ ok tt
unfolding process process_deposit process_withdrawal process_dispute process_chargeback
    shared_prestep assert_invariants unlocked_deposit unlocked_withdrawal unlocked_dispute
    unlocked_chargeback do_transition stored_amount can_transition execute get insert contains_key
    modify_at add remove contains ◌-ℤ◌ ◌+ℤ◌
contest_accepted = refl

dispute_ends_example :
    let (resolution_result, resolved_now) = process release resolution contested in
    (original : InputMessage) × (get 1 paid.transactions ≡ some (normal, original))
    × (resolution_result ≡ ok tt)
    × (balances resolved_now ≡ balances paid)
    × ((process release take_back contested).0 ≡ ok tt)
    × (balances frozen_account ≡ removed original.amount (balances paid))
dispute_ends_example =
    dispute_ends release contest resolution take_back paid (Reachable-IsConsistent paid_reached)
      refl refl refl refl refl contest_accepted

Reachable-locked_iff_example :
    ((contested.locked ≡ true) ↔ (
      (k : _) × (original : InputMessage) × (get k contested.transactions
        ≡ some (chargeback, original))))
    × ((frozen_account.locked ≡ true) ↔ (
        (contested.locked ≡ true)
        ⊎ (((process release take_back contested).0 ≡ ok tt)
            × (take_back.transaction_type ≡ TransactionType.chargeback))))
Reachable-locked_iff_example = Reachable-locked_iff release 1 contested take_back contested_reached

process_builds_agree_example :
    process debug contest paid ≡ logged contest (process release contest paid)
process_builds_agree_example =
    process_builds_agree contest paid (Reachable-IsConsistent paid_reached)
