-- ===== src/Service/PendingTransaction.antt =====
-- src/service/pending_transaction.rs: a buffered message with the channel for its outcome.
use nda_takehome.Base.{ℕ, Bool, Ordering, arith}
use nda_takehome.Message.{InputMessage}
use nda_takehome.Message
use nda_takehome.Collections.Heap.Order.{IsOrder}

-- An `UnboundedSender`, by the number of its channel.
abbrev pub Channel : Type 0
Channel = ℕ

pub record PendingTransaction : Type 0 where
  pub message : InputMessage
  pub callback : Channel

-- `Ord for PendingTransaction`
unfoldable pub cmp : PendingTransaction → PendingTransaction → Ordering
unfolding Message.cmp
cmp self other = Message.cmp self.message other.message

-- `PartialEq for PendingTransaction`
unfoldable pub eq : PendingTransaction → PendingTransaction → Bool
unfolding Message.eq
eq self other = Message.eq self.message other.message

pub cmp-IsOrder : IsOrder cmp
unfolding cmp
cmp-IsOrder = record { asym = λ x y h. ground arith; not_greater_trans = λ x y z h k. ground arith }
