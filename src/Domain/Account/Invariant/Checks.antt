-- ===== src/Domain/Account/Invariant/Checks.antt =====
-- `check_invariants` (src/domain/account.rs) on a consistent account.
use nda_takehome.Base.{ℕ, true, false, Option, none, some, ◌≡◌, refl, arith, all, sym, ◌∙◌, subst}
use nda_takehome.Base.Int.{eq_ℤ, eq_ℤ_refl, ◌+ℤ◌}
use nda_takehome.Collections.{get, contains, contains_key, all_entries, is_disjoint}
use nda_takehome.Collections.Laws.{contains_key-some, all_of_contains, is_disjoint_of}
use nda_takehome.Collections.Unique.{all_entries_of_get}
use nda_takehome.Message.{InputMessage}
use nda_takehome.Domain.Account.State.{
  Account, TransactionState, normal, disputed, resolved, chargeback,
}
use nda_takehome.Domain.Account.Check.{
  check_invariants, balances_hold, in_one_set, sets_are_recorded, sizes_agree, sets_are_disjoint,
  disputes_are_disputed, lock_has_chargeback, held_is_pending, set_of, pending_sum,
}
use nda_takehome.Domain.Account.Invariant.{IsConsistent}
use nda_takehome.Domain.Account.Invariant.Tracking.{Tracks, same_state}
use nda_takehome.Domain.Account.Invariant.Pending.{pending_sum_lem}

module _ (acc : Account) (c : IsConsistent acc) where
  tracks : (s : TransactionState) → Tracks s (set_of s acc) acc.transactions
  tracks normal = c.tracks_normal
  tracks disputed = c.tracks_disputed
  tracks resolved = c.tracks_resolved
  tracks chargeback = c.tracks_chargeback

  balances_hold_lem : balances_hold acc ≡ true
  unfolding balances_hold
  balances_hold_lem = ground (
    arith,
    c.solvent,
    subst (λ t. eq_ℤ t (acc.available +ℤ acc.held) ≡ true) (sym c.balanced)
        (eq_ℤ_refl (acc.available +ℤ acc.held)),
  )

  all_entries-in_one_set : all_entries (in_one_set acc) acc.transactions ≡ true
  unfolding in_one_set
  all_entries-in_one_set =
      all_entries_of_get (in_one_set acc) acc.transactions c.unique_keys λ k entry e.
        ground (
          arith,
          c.tracks_normal k,
          c.tracks_disputed k,
          c.tracks_resolved k,
          c.tracks_chargeback k,
        )

  -- What is in a state's set has an entry in that state.
  pub member_entry :
      (s : TransactionState) (k : ℕ)
      → contains k (set_of s acc) ≡ true
      → (msg : InputMessage) × (get k acc.transactions ≡ some (s, msg))
  member_entry s k h = entry_of (get k acc.transactions) refl
    where
      state_of : (t : TransactionState) → same_state s t ≡ true → t ≡ s
      state_of t h = ground arith

      entry_of :
          (o : Option (TransactionState × InputMessage))
          → get k acc.transactions ≡ o
          → (msg : InputMessage) × (get k acc.transactions ≡ some (s, msg))
      entry_of none e = ground (arith, tracks s k)
      entry_of (some (t, msg)) e = (msg, ground (arith, tracks s k, state_of t))

  recorded :
      (s : TransactionState) → all (λ k. contains_key k acc.transactions) (set_of s acc) ≡ true
  recorded s =
      all_of_contains _ (set_of s acc)
        λ k h. contains_key-some k acc.transactions (member_entry s k h).1

  disjoint :
      (s t : TransactionState)
      → same_state s t ≡ false
      → is_disjoint (set_of s acc) (set_of t acc) ≡ true
  disjoint s t ne =
      is_disjoint_of (set_of s acc) (set_of t acc)
        λ k h. ground (arith, member_entry s k h, tracks t k)

  sets_are_recorded_lem : sets_are_recorded acc ≡ true
  unfolding sets_are_recorded
  sets_are_recorded_lem =
      ground (arith, recorded normal, recorded disputed, recorded resolved, recorded chargeback)

  sizes_agree_lem : sizes_agree acc ≡ true
  unfolding sizes_agree
  sizes_agree_lem = ground (arith, c.counted)

  sets_are_disjoint_lem : sets_are_disjoint acc ≡ true
  unfolding sets_are_disjoint
  sets_are_disjoint_lem = ground (
    arith,
    disjoint normal disputed refl,
    disjoint normal resolved refl,
    disjoint normal chargeback refl,
    disjoint disputed resolved refl,
    disjoint disputed chargeback refl,
    disjoint resolved chargeback refl,
  )

  disputes_are_disputed_lem : disputes_are_disputed acc ≡ true
  unfolding disputes_are_disputed
  disputes_are_disputed_lem =
      all_of_contains _ acc.disputes λ k h. rw ((member_entry disputed k h).1) refl

  lock_has_chargeback_lem : lock_has_chargeback acc ≡ true
  unfolding lock_has_chargeback
  lock_has_chargeback_lem = ground (arith, c.locked_iff)

  held_is_pending_lem : held_is_pending acc ≡ true
  unfolding held_is_pending
  held_is_pending_lem =
      subst (λ h. eq_ℤ h (pending_sum acc.transactions) ≡ true)
        (pending_sum_lem acc.transactions ∙ sym c.pending)
        (eq_ℤ_refl (pending_sum acc.transactions))

  pub check_invariants_lem : check_invariants acc ≡ true
  unfolding check_invariants
  check_invariants_lem = ground (
    arith, balances_hold_lem, all_entries-in_one_set, sets_are_recorded_lem, sizes_agree_lem,
    sets_are_disjoint_lem, disputes_are_disputed_lem, lock_has_chargeback_lem, held_is_pending_lem,
  )
