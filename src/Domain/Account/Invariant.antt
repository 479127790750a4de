-- ===== src/Domain/Account/Invariant.antt =====
-- When an account of src/domain/account.rs is consistent.
pub mod Tracking
pub mod Pending
pub mod Arithmetic
pub mod Recording
pub mod Moving
pub mod Preservation
pub mod Checks
use nda_takehome.Base.{ℕ, ⊤, ◌+◌, Bool, true, false, not, ◌≡◌, ◌⊎◌, List, [], ◌∷◌, length, is_empty}
use nda_takehome.Base.Int.{ℤ, pos, ◌+ℤ◌, ◌≤ℤ◌}
use nda_takehome.Collections.{HashMap, HashSet}
use nda_takehome.Collections.Unique.{IsUnique, HasUniqueKeys}
use nda_takehome.Message.{InputMessage}
use nda_takehome.Domain.Account.State.{
  Account, TransactionState, normal, disputed, resolved, chargeback,
}
use Tracking.{Tracks}
use Pending.{sum_pending, AllPositive}

pub record IsConsistent (acc : Account) : Type 0 where
  -- the balances
  pub balanced : acc.total ≡ acc.available +ℤ acc.held
  pub solvent : (acc.locked ≡ true) ⊎ (pos 0 ≤ℤ acc.total)
  pub pending : acc.held ≡ sum_pending acc.transactions
  pub positive : AllPositive acc.transactions
  pub locked_iff : acc.locked ≡ not (is_empty acc.chargebacks)
  -- each set holds the transactions that are recorded in its state
  pub tracks_normal : Tracks normal acc.normal acc.transactions
  pub tracks_disputed : Tracks disputed acc.disputes acc.transactions
  pub tracks_resolved : Tracks resolved acc.resolves acc.transactions
  pub tracks_chargeback : Tracks chargeback acc.chargebacks acc.transactions
  -- the representation of the collections
  pub unique_keys : HasUniqueKeys acc.transactions
  pub unique_normal : IsUnique acc.normal
  pub unique_disputes : IsUnique acc.disputes
  pub unique_resolves : IsUnique acc.resolves
  pub unique_chargebacks : IsUnique acc.chargebacks
  pub counted :
      length acc.normal + length acc.disputes + length acc.resolves + length acc.chargebacks
      ≡ length acc.transactions
