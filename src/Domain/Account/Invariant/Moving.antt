-- ===== src/Domain/Account/Invariant/Moving.antt =====
-- The invariant when a transaction moves to another state (src/domain/account.rs).
use nda_takehome.Base.{ℕ, ◌+◌, true, false, some, ◌≡◌, refl, inl, arith, length, sym, ◌∙◌}
use nda_takehome.Collections.{HashSet, get, contains, add, remove}
use nda_takehome.Collections.Unique.{
  modify_at-HasUniqueKeys, length-modify_at, IsUnique, add-IsUnique, remove-IsUnique,
  length-add_new, length-remove,
}
use nda_takehome.Message.{InputMessage}
use nda_takehome.Domain.Account.State.{Account, normal, disputed, resolved, chargeback, set_state}
use nda_takehome.Domain.Account.Settlement.{after_dispute, after_resolve, after_chargeback}
use nda_takehome.Domain.Account.Invariant.{IsConsistent}
use nda_takehome.Domain.Account.Invariant.Tracking.{Tracks-leave, Tracks-enter, Tracks-stay}
use nda_takehome.Domain.Account.Invariant.Pending.{
  sum_pending, sum_pending-modify_at, modify_at-AllPositive,
}
use nda_takehome.Domain.Account.Invariant.Arithmetic.{
  dispute_balance, resolve_balance, chargeback_balance, pending_enters, pending_leaves,
  not_empty-add,
}

-- A member of one set that is in no other moves there: the sizes still add up.
length-move :
    (k : ℕ) (from into : HashSet)
    → IsUnique from
    → contains k from ≡ true
    → contains k into ≡ false
    → length (remove k from) + length (add k into) ≡ length from + length into
length-move k from into u h n = omega (arith, length-remove k from u h, length-add_new k into n)

-- What disputes, resolves and chargebacks share: a transaction moves to another state.
module _ {acc : Account} (k : ℕ) (msg : InputMessage) (c : IsConsistent acc) where
  pub after_dispute-IsConsistent :
      get k acc.transactions ≡ some (normal, msg) → IsConsistent (after_dispute acc k msg.amount)
  after_dispute-IsConsistent e =
      let swapped = sum_pending-modify_at k disputed (normal, msg) acc.transactions e in
      record {
        balanced = dispute_balance acc.total acc.available acc.held msg.amount c.balanced;
        solvent = c.solvent;
        pending =
            pending_enters acc.held msg.amount (sum_pending acc.transactions) _ c.pending swapped;
        positive = modify_at-AllPositive k disputed acc.transactions c.positive;
        locked_iff = c.locked_iff;
        tracks_normal =
            Tracks-leave normal acc.normal acc.transactions k disputed refl c.tracks_normal;
        tracks_disputed = Tracks-enter disputed acc.disputes acc.transactions k e c.tracks_disputed;
        tracks_resolved =
            Tracks-stay resolved acc.resolves acc.transactions k disputed normal e refl refl
              c.tracks_resolved;
        tracks_chargeback =
            Tracks-stay chargeback acc.chargebacks acc.transactions k disputed normal e refl refl
              c.tracks_chargeback;
        unique_keys = modify_at-HasUniqueKeys k (set_state disputed) acc.transactions c.unique_keys;
        unique_normal = remove-IsUnique k acc.normal c.unique_normal;
        unique_disputes = add-IsUnique k acc.disputes c.unique_disputes;
        unique_resolves = c.unique_resolves;
        unique_chargebacks = c.unique_chargebacks;
        counted = omega (
          arith,
          c.counted,
          length-modify_at k (set_state disputed) acc.transactions,
          length-move k acc.normal acc.disputes c.unique_normal (c.tracks_normal k ∙ rw e refl)
              (c.tracks_disputed k ∙ rw e refl),
        );
      }

  pub after_resolve-IsConsistent :
      get k acc.transactions ≡ some (disputed, msg) → IsConsistent (after_resolve acc k msg.amount)
  after_resolve-IsConsistent e =
      let swapped = sum_pending-modify_at k resolved (disputed, msg) acc.transactions e in
      record {
        balanced = resolve_balance acc.total acc.available acc.held msg.amount c.balanced;
        solvent = c.solvent;
        pending =
            pending_leaves acc.held msg.amount (sum_pending acc.transactions) _ c.pending swapped;
        positive = modify_at-AllPositive k resolved acc.transactions c.positive;
        locked_iff = c.locked_iff;
        tracks_normal =
            Tracks-stay normal acc.normal acc.transactions k resolved disputed e refl refl
              c.tracks_normal;
        tracks_disputed =
            Tracks-leave disputed acc.disputes acc.transactions k resolved refl c.tracks_disputed;
        tracks_resolved = Tracks-enter resolved acc.resolves acc.transactions k e c.tracks_resolved;
        tracks_chargeback =
            Tracks-stay chargeback acc.chargebacks acc.transactions k resolved disputed e refl refl
              c.tracks_chargeback;
        unique_keys = modify_at-HasUniqueKeys k (set_state resolved) acc.transactions c.unique_keys;
        unique_normal = c.unique_normal;
        unique_disputes = remove-IsUnique k acc.disputes c.unique_disputes;
        unique_resolves = add-IsUnique k acc.resolves c.unique_resolves;
        unique_chargebacks = c.unique_chargebacks;
        counted = omega (
          arith,
          c.counted,
          length-modify_at k (set_state resolved) acc.transactions,
          length-move k acc.disputes acc.resolves c.unique_disputes
              (c.tracks_disputed k ∙ rw e refl) (c.tracks_resolved k ∙ rw e refl),
        );
      }

  pub after_chargeback-IsConsistent :
      get k acc.transactions ≡ some (disputed, msg)
      → IsConsistent (after_chargeback acc k msg.amount)
  after_chargeback-IsConsistent e =
      let swapped = sum_pending-modify_at k chargeback (disputed, msg) acc.transactions e in
      record {
        balanced = chargeback_balance acc.total acc.available acc.held msg.amount c.balanced;
        solvent = inl refl;
        pending =
            pending_leaves acc.held msg.amount (sum_pending acc.transactions) _ c.pending swapped;
        positive = modify_at-AllPositive k chargeback acc.transactions c.positive;
        locked_iff = sym (not_empty-add k acc.chargebacks);
        tracks_normal =
            Tracks-stay normal acc.normal acc.transactions k chargeback disputed e refl refl
              c.tracks_normal;
        tracks_disputed =
            Tracks-leave disputed acc.disputes acc.transactions k chargeback refl c.tracks_disputed;
        tracks_resolved =
            Tracks-stay resolved acc.resolves acc.transactions k chargeback disputed e refl refl
              c.tracks_resolved;
        tracks_chargeback =
            Tracks-enter chargeback acc.chargebacks acc.transactions k e c.tracks_chargeback;
        unique_keys =
            modify_at-HasUniqueKeys k (set_state chargeback) acc.transactions c.unique_keys;
        unique_normal = c.unique_normal;
        unique_disputes = remove-IsUnique k acc.disputes c.unique_disputes;
        unique_resolves = c.unique_resolves;
        unique_chargebacks = add-IsUnique k acc.chargebacks c.unique_chargebacks;
        counted = omega (
          arith,
          c.counted,
          length-modify_at k (set_state chargeback) acc.transactions,
          length-move k acc.disputes acc.chargebacks c.unique_disputes
              (c.tracks_disputed k ∙ rw e refl) (c.tracks_chargeback k ∙ rw e refl),
        );
      }
