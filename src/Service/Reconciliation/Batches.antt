-- ===== src/Service/Reconciliation/Batches.antt =====
-- The instruments of the event loop (src/service/mod.rs) after a batch.
use nda_takehome.Base.{
  ℕ, ◌+◌, ◌≤◌, List, [], ◌∷◌, ◌++◌, ◌≡◌, sym, ap, ◌∙◌, arith, length, length-append, ◌==◌,
  if◌then◌else◌, subst,
}
use nda_takehome.Service.State.{Server, Metrics, ServiceConfig}
use nda_takehome.Service.Engine.{Counts, start_batch, finish_batch}
use nda_takehome.Service.Reconciliation.{Leaves}

abbrev pub sum : List ℕ → ℕ
sum [] = 0
sum (n ∷ ns) = n + sum ns

sum-snoc : (n : ℕ) (ns : List ℕ) → sum (ns ++ n ∷ []) ≡ sum ns + n
sum-snoc n [] = omega arith
sum-snoc n (m ∷ ns) = omega (arith, sum-snoc n ns)

-- The most messages that a batch may have: a batch size of 0 works as 1.
abbrev pub limit : ServiceConfig → ℕ
limit config = if config.batch_size == 0 then 1 else config.batch_size

abbrev pub AllWithin : ℕ → List ℕ → Type 0
AllWithin most [] = Unit
AllWithin most (n ∷ ns) = (1 ≤ n) × (n ≤ most) × AllWithin most ns

AllWithin-snoc :
    (most n : ℕ) (ns : List ℕ)
    → 1 ≤ n
    → n ≤ most
    → AllWithin most ns
    → AllWithin most (ns ++ n ∷ [])
AllWithin-snoc most n [] low high h = (low, high, tt)
AllWithin-snoc most n (m ∷ ns) low high (l, u, h) = (l, u, AllWithin-snoc most n ns low high h)

-- The instruments agree with each other: every batch has a size and a duration, and every message
-- of a batch has its labels and is counted as processed or as failed.
abbrev pub Agrees : ℕ → Metrics → Type 0
Agrees most metrics =
    let sizes = metrics.service_batch_size in
    (metrics.service_batches_processed ≡ length sizes)
    × (metrics.service_batch_durations ≡ length sizes)
    × (metrics.service_batch_transactions_ok + metrics.service_batch_transactions_failed
        ≡ sum sizes)
    × (length metrics.service_transactions_processed ≡ sum sizes)
    × AllWithin most sizes

-- And with what the service has got: `ticks` messages, of which `received` are transactions, each of
-- them in a batch or still in the buffer.
abbrev pub Reconciles : ServiceConfig → ℕ → ℕ → Server → Type 0
Reconciles config ticks received self =
    (self.config ≡ config)
    × (self.metrics.service_ticks ≡ ticks)
    × (sum self.metrics.service_batch_size + length self.ordered_messages ≡ received)
    × Agrees (limit config) self.metrics

finish_batch-Agrees :
    (most size : ℕ) (self after : Server) (counts : Counts)
    → 1 ≤ size
    → size ≤ most
    → Leaves [] size (0, 0) (start_batch size self) counts after
    → Agrees most self.metrics
    → Agrees most (finish_batch counts after).metrics
finish_batch-Agrees most size self after counts low high ((_, same, labels, counted), _)
      (b, d, c, l, w) =
    let before = self.metrics.service_batch_size in
    let sizes = ap (λ m. m.service_batch_size) same in
    let longer : length after.metrics.service_batch_size ≡ length before + 1 =
      ap length sizes ∙ length-append before (size ∷ []) in
    let more : sum after.metrics.service_batch_size ≡ sum before + size =
      ap sum sizes ∙ sum-snoc size before in
    let batches = ap (λ m. m.service_batches_processed) same in
    let durations = ap (λ m. m.service_batch_durations) same in
    let oks = ap (λ m. m.service_batch_transactions_ok) same in
    let failures = ap (λ m. m.service_batch_transactions_failed) same in
    (
      omega arith,
      omega arith,
      omega arith,
      omega arith,
      subst (AllWithin most) (sym sizes) (AllWithin-snoc most size before low high w),
    )

pub finish_batch-Reconciles :
    (config : ServiceConfig) (ticks received : ℕ) (self after : Server) (counts : Counts)
    → let size = length self.ordered_messages in
      1 ≤ size
      → size ≤ limit config
      → Leaves [] size (0, 0) (start_batch size self) counts after
      → Reconciles config ticks received self
      → Reconciles config ticks received (finish_batch counts after)
        × ((finish_batch counts after).ordered_messages ≡ [])
finish_batch-Reconciles config ticks received self after counts low high leaves
      (c, t, total, agrees) =
    let size = length self.ordered_messages in
    let ((c', same, _, _), emptied) = leaves in
    let more = ap (λ m. sum m.service_batch_size) same in
    let snoc = sum-snoc size self.metrics.service_batch_size in
    let none_left = ap length emptied in
    (
      (
        c' ∙ c,
        ap (λ m. m.service_ticks) same ∙ t,
        omega arith,
        finish_batch-Agrees (limit config) size self after counts low high leaves agrees,
      ),
      emptied,
    )

pub limit_positive : (config : ServiceConfig) → 1 ≤ limit config
limit_positive config = ground arith
