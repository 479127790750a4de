-- ===== src/Domain/Account/Invariant/Pending.antt =====
-- The sum of the disputed amounts, as a plain recursion over the entries, under each update.
use nda_takehome.Base.{ℕ, ⊤, none, some, ◌≡◌, arith, [], ◌∷◌, foldl}
use nda_takehome.Base.Int.{pos, ◌+ℤ◌, ◌≤ℤ◌, int_laws, +ℤ_assoc}
use nda_takehome.Collections.{get, insert, modify_at}
use nda_takehome.Collections.Sums.{sum_by, sum_by-insert_new, sum_by-modify_at}
use nda_takehome.Domain.Amount.{Amount}
use nda_takehome.Message.{InputMessage}
use nda_takehome.Domain.Account.State.{
  TransactionState, normal, disputed, resolved, chargeback, set_state,
}
use nda_takehome.Domain.Account.Check.{pending_sum, add_disputed}
use nda_takehome.Domain.Account.Invariant.Tracking.{Transactions}

abbrev pub pending_of : TransactionState × InputMessage → Amount
pending_of (disputed, msg) = msg.amount
pending_of (normal, _) = pos 0
pending_of (resolved, _) = pos 0
pending_of (chargeback, _) = pos 0

abbrev pub sum_pending : Transactions → Amount
sum_pending = sum_by pending_of

abbrev pub AllPositive : Transactions → Type 0
AllPositive [] = ⊤
AllPositive ((_, entry) ∷ m) = (pos 1 ≤ℤ (entry.1).amount) × AllPositive m

add_disputed_lem :
    (acc : Amount) (k : ℕ) (entry : TransactionState × InputMessage)
    → add_disputed acc (k, entry) ≡ acc +ℤ pending_of entry
add_disputed_lem acc k (normal, msg) = omega int_laws
add_disputed_lem acc k (disputed, msg) = omega int_laws
add_disputed_lem acc k (resolved, msg) = omega int_laws
add_disputed_lem acc k (chargeback, msg) = omega int_laws

fold_pending : (m : Transactions) (acc : Amount) → foldl add_disputed acc m ≡ acc +ℤ sum_pending m
fold_pending [] acc = omega int_laws
fold_pending ((k, entry) ∷ m) acc =
    rw (fold_pending m (add_disputed acc (k, entry)), add_disputed_lem acc k entry)
      (+ℤ_assoc acc (pending_of entry) (sum_pending m))

pub pending_sum_lem : (m : Transactions) → pending_sum m ≡ sum_pending m
unfolding pending_sum
pending_sum_lem m = rw fold_pending (omega int_laws)

pub sum_pending-insert_new :
    (k : ℕ) (msg : InputMessage) (m : Transactions)
    → get k m ≡ none
    → sum_pending (insert k (normal, msg) m) ≡ sum_pending m
sum_pending-insert_new k msg m h =
    rw (sum_by-insert_new pending_of k (normal, msg) m h) (omega int_laws)

pub sum_pending-modify_at :
    (k : ℕ) (to : TransactionState) (entry : TransactionState × InputMessage) (m : Transactions)
    → get k m ≡ some entry
    → sum_pending (modify_at k (set_state to) m) +ℤ pending_of entry
      ≡ sum_pending m +ℤ pending_of (to, entry.1)
sum_pending-modify_at k to entry m h = sum_by-modify_at pending_of k (set_state to) entry m h

pub sum_pending_nonneg : (m : Transactions) → AllPositive m → pos 0 ≤ℤ sum_pending m
sum_pending_nonneg [] h = omega arith
sum_pending_nonneg ((k, (normal, msg)) ∷ m) h = omega (int_laws, sum_pending_nonneg m h.1)
sum_pending_nonneg ((k, (disputed, msg)) ∷ m) h = omega (int_laws, sum_pending_nonneg m h.1)
sum_pending_nonneg ((k, (resolved, msg)) ∷ m) h = omega (int_laws, sum_pending_nonneg m h.1)
sum_pending_nonneg ((k, (chargeback, msg)) ∷ m) h = omega (int_laws, sum_pending_nonneg m h.1)

pub insert-AllPositive :
    (k : ℕ) (entry : TransactionState × InputMessage) (m : Transactions)
    → pos 1 ≤ℤ (entry.1).amount
    → AllPositive m
    → AllPositive (insert k entry m)
unfolding insert
insert-AllPositive k entry [] p h = (p, tt)
insert-AllPositive k entry ((j, old) ∷ m) p h = ground (arith, insert-AllPositive k entry m p h.1)

pub modify_at-AllPositive :
    (k : ℕ) (to : TransactionState) (m : Transactions)
    → AllPositive m
    → AllPositive (modify_at k (set_state to) m)
unfolding modify_at
modify_at-AllPositive k to [] h = tt
modify_at-AllPositive k to ((j, old) ∷ m) h = ground (arith, modify_at-AllPositive k to m h.1)

pub amount_positive :
    (k : ℕ) (entry : TransactionState × InputMessage) (m : Transactions)
    → AllPositive m
    → get k m ≡ some entry
    → pos 1 ≤ℤ (entry.1).amount
unfolding get
amount_positive k entry [] h e = ground arith
amount_positive k entry ((j, old) ∷ m) h e = ground (arith, amount_positive k entry m h.1)
