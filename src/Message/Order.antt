-- ===== src/Message/Order.antt =====
-- `Ord for InputMessage` (src/message.rs) by its keys.
use nda_takehome.Base.{Ordering, ◌≡◌, ◌<◌, ◌↔◌, ◌⊎◌, arith}
use nda_takehome.Message.{InputMessage, cmp}

-- The keys in the order of comparison: smaller means older.
abbrev pub IsOlder : InputMessage → InputMessage → Type 0
IsOlder x y =
    (x.chrono_order < y.chrono_order)
    ⊎ ((x.chrono_order ≡ y.chrono_order)
        × ((x.client_id < y.client_id)
            ⊎ ((x.client_id ≡ y.client_id) × (x.transaction_id < y.transaction_id))))

abbrev pub SameKeys : InputMessage → InputMessage → Type 0
SameKeys x y =
    (x.chrono_order ≡ y.chrono_order)
    × (x.client_id ≡ y.client_id)
    × (x.transaction_id ≡ y.transaction_id)

-- The greater message is the one whose sequence number, or then client, or then transaction, is
-- smaller; messages compare equal exactly when all three keys agree.
pub cmp_iff :
    (x y : InputMessage)
    → ((cmp x y ≡ Ordering.gt) ↔ IsOlder x y)
      × ((cmp x y ≡ Ordering.lt) ↔ IsOlder y x)
      × ((cmp x y ≡ Ordering.eq) ↔ SameKeys x y)
unfolding cmp
cmp_iff x y = (
  (λ h. ground arith, λ h. ground arith),
  (λ h. ground arith, λ h. ground arith),
  (λ h. ground arith, λ h. ground arith),
)

pub cmp_trans :
    (x y z : InputMessage) → cmp x y ≡ Ordering.gt → cmp y z ≡ Ordering.gt → cmp x z ≡ Ordering.gt
unfolding cmp
cmp_trans x y z h k = ground arith
