-- ===== src/UnitTests/Buffers.antt =====
-- The test of src/service/mod.rs on the order of the buffer.
use nda_takehome.Base.{
  ℕ, zero, suc, ◌^◌, ⊤, Bool, true, false, ◌&&◌, ◌==◌, none, some, List, [], ◌∷◌, ◌++◌, length,
  is_empty,
}
use nda_takehome.Base.Outcome.{ok, err, panicked, debug}
use nda_takehome.Base.Action.{◌>>◌}
use nda_takehome.Collections.Heap.{pop}
use nda_takehome.Domain.Transaction.{deposit}
use nda_takehome.Service.PendingTransaction.{PendingTransaction, cmp}
use nda_takehome.Service.State.{ServiceMessage, ServerAction, new}
use nda_takehome.Service.Engine.{iteration}
use nda_takehome.UnitTests.{create_message, held_receivers}

-- `BinaryHeap::into_sorted_vec`: the greatest comes last; the fuel is the number of the elements.
unfoldable pub into_sorted_vec : ℕ → List PendingTransaction → List PendingTransaction
unfolding pop
into_sorted_vec zero heap = []
into_sorted_vec (suc fuel) heap = elim (pop cmp heap) [
  | none ↦ []
  | some (greatest, rest) ↦ into_sorted_vec fuel rest ++ greatest ∷ []
]

abbrev orders_are : List ℕ → List PendingTransaction → Bool
orders_are [] [] = true
orders_are (n ∷ rest) (tx ∷ txs) = ((tx.message).chrono_order == n) && orders_are rest txs
orders_are _ _ = false

abbrev service_message : ℕ → ServiceMessage
service_message index = create_message index 1 index (10 ^ index) deposit

unfoldable pub step : ℕ → ServerAction ⊤
unfolding iteration create_message
step index = iteration debug held_receivers (service_message index)

unfoldable pub test_ordering_in_buffer : Bool
unfolding step into_sorted_vec
test_ordering_in_buffer =
    let (result, self) = (step 2 >> step 0 >> step 1) (new (record { batch_size = 10 })) in
    elim result [
      | ok _ ↦
          let buffer = self.ordered_messages in
          orders_are (2 ∷ 1 ∷ 0 ∷ []) (into_sorted_vec (length buffer) buffer) && is_empty self.sent
      | err e ↦ false
      | panicked ↦ false
    ]
