-- ===== src/Service/Reconciliation.antt =====
-- The instruments of the event loop (src/service/mod.rs) against what it has processed.
pub mod Batches
pub mod Loop
use nda_takehome.Base.{
  ℕ, zero, suc, ◌+◌, ◌≤◌, ⊤, List, [], ◌∷◌, ◌++◌, ◌≡◌, refl, sym, ap, ◌∙◌, arith, length,
  length-append,
}
use nda_takehome.Base.Outcome.{Outcome, ok, err, panicked, Build, debug, release}
use nda_takehome.Base.Action.{◌>>=◌}
use nda_takehome.Collections.Heap.{select, pop}
use nda_takehome.Collections.Heap.Order.{length-select}
use nda_takehome.Service.PendingTransaction.{PendingTransaction, cmp}
use nda_takehome.Service.State.{Server, Metrics, Receivers, ServiceError, ServerAction, Labels}
use nda_takehome.Service.Engine.{
  Counts, process_entry, assert_entry, count_result, send_outcome, process_pending, drain,
}

-- If the action has returned normally, `Q` holds of what it has returned and of the state.
abbrev pub Returned {ℓ} :
    {A : Type ℓ} → (A → Server → Type 0) → Outcome ServiceError A × Server → Type 0
Returned Q (ok a, self) = Q a self
Returned Q (err e, self) = Unit
Returned Q (panicked, self) = Unit

pub Returned-weaken {ℓ} :
    {A : Type ℓ} (P Q : A → Server → Type 0) (r : Outcome ServiceError A × Server)
    → ((a : A) (self : Server) → P a self → Q a self)
    → Returned P r
    → Returned Q r
Returned-weaken P Q (ok a, self) next h = next a self h
Returned-weaken P Q (err e, self) next h = tt
Returned-weaken P Q (panicked, self) next h = tt

pub Returned-bind {ℓ} :
    {A : Type ℓ} {B : Type 0} (P : A → Server → Type 0) (Q : B → Server → Type 0)
    (r : Outcome ServiceError A × Server) (f : A → ServerAction B) (self : Server)
    → Returned P r
    → ((a : A) (self' : Server) → P a self' → Returned Q (f a self'))
    → Returned Q (((λ (_ : Server). r) >>= f) self)
Returned-bind P Q (ok a, self') f self h next = next a self' h
Returned-bind P Q (err e, self') f self h next = tt
Returned-bind P Q (panicked, self') f self h next = tt

-- The instruments but for the labels.
abbrev pub unlabelled : Metrics → Metrics
unlabelled metrics = record metrics { service_transactions_processed = [] }

-- `n` messages have been processed: each has left its labels and is counted.
abbrev pub Tallies : ℕ → Counts → Server → Counts → Server → Type 0
Tallies n counts self counts' self' =
    (self'.config ≡ self.config)
    × (unlabelled self'.metrics ≡ unlabelled self.metrics)
    × (length self'.metrics.service_transactions_processed
        ≡ length self.metrics.service_transactions_processed + n)
    × (counts'.0 + counts'.1 ≡ counts.0 + counts.1 + n)

-- As `Tallies`, and the buffer is now `rest`.
abbrev pub Leaves : List PendingTransaction → ℕ → Counts → Server → Counts → Server → Type 0
Leaves rest n counts self counts' self' =
    Tallies n counts self counts' self' × (self'.ordered_messages ≡ rest)

Leaves-step :
    (rest : List PendingTransaction) (m n : ℕ) (counts0 counts1 counts2 : Counts)
    (self0 self1 self2 : Server)
    → Tallies 1 counts0 self0 counts1 self1
    → m ≡ n
    → Leaves rest m counts1 self1 counts2 self2
    → Leaves rest (suc n) counts0 self0 counts2 self2
Leaves-step rest m n counts0 counts1 counts2 self0 self1 self2 (c, m1, l, k) e
      ((c', m2, l', k'), left) =
    ((c' ∙ c, m2 ∙ m1, omega arith, omega arith), left)

snoc_length : (l : Labels) (ls : List Labels) → length (ls ++ l ∷ []) ≡ length ls + 1
snoc_length l ls = length-append ls (l ∷ [])

module _ (receivers : Receivers) where
  process_pending-Leaves :
      (build : Build) (tx : PendingTransaction) (counts : Counts) (self : Server)
      → Returned
          (Leaves self.ordered_messages 1 counts self)
          (process_pending build receivers tx counts self)
  unfolding process_pending process_entry count_result send_outcome assert_entry
  process_pending-Leaves debug tx counts self = grind (arith, snoc_length)
  process_pending-Leaves release tx counts self = grind (arith, snoc_length)

module _ (build : Build) (receivers : Receivers) where
  pub drain-Leaves :
      (fuel : ℕ) (buffer : List PendingTransaction) (counts : Counts) (self : Server)
      → self.ordered_messages ≡ buffer
      → length buffer ≤ fuel
      → Returned (Leaves [] (length buffer) counts self) (drain build receivers fuel counts self)
  unfolding drain pop
  drain-Leaves zero [] counts self e h = ((refl, refl, omega arith, omega arith), e)
  drain-Leaves zero (x ∷ xs) counts self e h = elim h [ ]
  drain-Leaves (suc fuel) [] counts self e h = rw e ((refl, refl, omega arith, omega arith), refl)
  drain-Leaves (suc fuel) (x ∷ xs) counts self e h =
      let (tx, rest) = select cmp x xs in
      let start : Server = record self { ordered_messages = rest } in
      let short = length-select cmp x xs in
      rw e (
        Returned-bind (Leaves rest 1 counts start) (Leaves [] (suc (length xs)) counts self)
          (process_pending build receivers tx counts start)
          (λ counts1. drain build receivers fuel counts1) start
          (process_pending-Leaves receivers build tx counts start)
          λ counts1 self1 (first, e1).
            Returned-weaken (Leaves [] (length rest) counts1 self1)
              (Leaves [] (suc (length xs)) counts self) (drain build receivers fuel counts1 self1)
              (λ counts' self'.
                Leaves-step [] (length rest) (length xs) counts counts1 counts' self self1 self'
                  first short)
              (drain-Leaves fuel rest counts1 self1 e1 (omega (arith, short))))
