-- ===== src/Message.antt =====
-- src/message.rs: a parsed row of the input and its order.
pub mod Order
pub mod Output
use nda_takehome.Base.{ℕ, compare, Ordering, Bool, true, false}
use nda_takehome.Domain.Amount.{Amount}
use nda_takehome.Domain.Transaction.{ClientId, TransactionId, TransactionType}

pub record InputMessage : Type 0 where
  pub chrono_order : ℕ
  pub transaction_type : TransactionType
  pub client_id : ClientId
  pub transaction_id : TransactionId
  pub amount : Amount

-- A `match` that goes on to the next key only from `Ordering::Equal`.
abbrev pub then_cmp : Ordering → Ordering → Ordering
then_cmp Ordering.eq next = next
then_cmp Ordering.lt next = Ordering.lt
then_cmp Ordering.gt next = Ordering.gt

-- `Ord for InputMessage`: reversed, so that the oldest message is the greatest.
unfoldable pub cmp : InputMessage → InputMessage → Ordering
cmp self other = then_cmp (compare other.chrono_order self.chrono_order) (
    then_cmp (compare other.client_id self.client_id)
      (compare other.transaction_id self.transaction_id))

-- `PartialEq for InputMessage`
unfoldable pub eq : InputMessage → InputMessage → Bool
unfolding cmp
eq self other = elim (cmp self other) [ Ordering.eq ↦ true | _ ↦ false ]
