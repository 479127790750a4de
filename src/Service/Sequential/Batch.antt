-- ===== src/Service/Sequential/Batch.antt =====
-- `Service::handle_buffer` (src/service/mod.rs): a batch against the sequential run.
use nda_takehome.Base.{
  ℕ, zero, suc, ◌+◌, ◌≤◌, ⊤, List, [], ◌∷◌, ◌++◌, ◌≡◌, refl, sym, ap, ◌∙◌, arith, length,
  append_assoc, append-nil, subst, ◌==◌, Bool, false, if◌then◌else◌,
}
use nda_takehome.Base.Outcome.{ok, Build}
use nda_takehome.Base.Action.{◌>>=◌, ◌>>◌, modify, pure}
use nda_takehome.Collections.Heap.{select}
use nda_takehome.Collections.Heap.Order.{pop_all, length-select, length-pop_all}
use nda_takehome.Service.PendingTransaction.{PendingTransaction, cmp}
use nda_takehome.Service.State.{Server, Receivers, ServerAction}
use nda_takehome.Service.Engine.{Counts, drain, handle_buffer, start_batch, finish_batch}
use nda_takehome.Service.Sequential.{outcome, sent_of, run_accounts, run_sent}
use nda_takehome.Service.Sequential.Accounts.{AllConsistent, step_accounts-AllConsistent}
use nda_takehome.Service.Sequential.Pending.{
  AllOpen, tally, settled, outcome-returns, process_pending_lem,
}

-- The counts and the engine behind a batch.
run_batch : Build → List PendingTransaction → Counts → Server → Counts × Server
run_batch build [] counts self = (counts, self)
run_batch build (tx ∷ txs) counts self =
    run_batch build txs (tally (outcome build tx.message self.accounts).0 counts)
      (settled build tx self)

-- The heap's elements in the order in which they are processed.
abbrev pub in_order : List PendingTransaction → List PendingTransaction
in_order buffer = pop_all cmp (length buffer) buffer

module _ (build : Build) (receivers : Receivers) (all_open : AllOpen receivers) where
  drain_lem :
      (fuel : ℕ) (buffer : List PendingTransaction) (counts : Counts) (self : Server)
      → AllConsistent self.accounts
      → length buffer ≤ fuel
      → let (counts', self') =
          run_batch build
            (pop_all cmp fuel buffer)
            counts
            (record self { ordered_messages = [] }) in
        drain build receivers fuel counts (record self { ordered_messages = buffer })
        ≡ (ok counts', self')
  unfolding drain pop_all run_batch
  drain_lem zero [] counts self c h = refl
  drain_lem zero (x ∷ xs) counts self c h = elim h [ ]
  drain_lem (suc fuel) [] counts self c h = refl
  drain_lem (suc fuel) (x ∷ xs) counts self c h =
      let (tx, rest) = select cmp x xs in
      let start : Server = record self { ordered_messages = rest } in
      ap (λ p. ((λ (_ : Server). p) >>= λ counts'. drain build receivers fuel counts') start)
        (process_pending_lem build receivers tx counts start all_open c)
      ∙ drain_lem fuel rest (tally (outcome build tx.message self.accounts).0 counts)
          (settled build tx self) (step_accounts-AllConsistent build tx.message self.accounts c)
          (omega (arith, length-select cmp x xs))

-- What a batch has done to the engine.
pub record Flushes (build : Build) (self self' : Server) : Type 0 where
  pub emptied : self'.ordered_messages ≡ []
  pub accounts : self'.accounts ≡ run_accounts build (in_order self.ordered_messages) self.accounts
  pub sent : self'.sent ≡ self.sent ++ run_sent build (in_order self.ordered_messages) self.accounts
  pub config : self'.config ≡ self.config
  pub completed : self'.completed ≡ self.completed
  -- every message is counted once, as processed or as failed
  pub counted :
      self'.metrics.service_batch_transactions_ok + self'.metrics.service_batch_transactions_failed
      ≡ self.metrics.service_batch_transactions_ok
        + self.metrics.service_batch_transactions_failed
        + length self.ordered_messages

module _ (build : Build) where
  run_batch_accounts :
      (txs : List PendingTransaction) (counts : Counts) (self : Server)
      → (run_batch build txs counts self).1.accounts ≡ run_accounts build txs self.accounts
  unfolding run_batch run_accounts
  run_batch_accounts [] counts self = refl
  run_batch_accounts (tx ∷ txs) counts self = run_batch_accounts txs _ (settled build tx self)

  run_batch_sent :
      (txs : List PendingTransaction) (counts : Counts) (self : Server)
      → (run_batch build txs counts self).1.sent ≡ self.sent ++ run_sent build txs self.accounts
  unfolding run_batch run_sent
  run_batch_sent [] counts self = sym (append-nil self.sent)
  run_batch_sent (tx ∷ txs) counts self =
      run_batch_sent txs _ (settled build tx self)
      ∙ append_assoc self.sent (sent_of build tx self.accounts ∷ []) _

  -- What a batch leaves alone.
  run_batch_rest :
      (txs : List PendingTransaction) (counts : Counts) (self : Server)
      → let self' = (run_batch build txs counts self).1 in
        (self'.ordered_messages ≡ self.ordered_messages)
        × (self'.config ≡ self.config)
        × (self'.completed ≡ self.completed)
        × (self'.metrics.service_batch_transactions_ok ≡ self.metrics.service_batch_transactions_ok)
        × (self'.metrics.service_batch_transactions_failed
            ≡ self.metrics.service_batch_transactions_failed)
  unfolding run_batch
  run_batch_rest [] counts self = (refl, refl, refl, refl, refl)
  run_batch_rest (tx ∷ txs) counts self = run_batch_rest txs _ (settled build tx self)

  run_batch_counts :
      (txs : List PendingTransaction) (counts : Counts) (self : Server)
      → AllConsistent self.accounts
      → let counts' = (run_batch build txs counts self).0 in
        counts'.0 + counts'.1 ≡ counts.0 + counts.1 + length txs
  unfolding run_batch
  run_batch_counts [] counts self c = omega arith
  run_batch_counts (tx ∷ txs) counts self c = ground (
    arith,
    outcome-returns build tx.message self.accounts c,
    run_batch_counts txs (tally (outcome build tx.message self.accounts).0 counts)
        (settled build tx self) (step_accounts-AllConsistent build tx.message self.accounts c),
  )

  -- What a batch of at least one message leaves behind.
  abbrev flushed : Server → Server
  flushed self =
      let size = length self.ordered_messages in
      let (counts, self') =
        run_batch build (in_order self.ordered_messages) (0, 0)
          (start_batch size (record self { ordered_messages = [] })) in
      finish_batch counts self'

  flushed-Flushes :
      (self : Server) → AllConsistent self.accounts → Flushes build self (flushed self)
  flushed-Flushes self c =
      let size = length self.ordered_messages in
      let txs = in_order self.ordered_messages in
      let start : Server = start_batch size (record self { ordered_messages = [] }) in
      let (same_buffer, same_config, same_completed, same_ok, same_failed) =
        run_batch_rest txs (0, 0) start in
      record {
        emptied = same_buffer;
        accounts = run_batch_accounts txs (0, 0) start;
        sent = run_batch_sent txs (0, 0) start;
        config = same_config;
        completed = same_completed;
        counted = omega (
          arith,
          same_ok,
          same_failed,
          run_batch_counts txs (0, 0) start c,
          length-pop_all cmp size self.ordered_messages (omega arith),
        );
      }

-- `Service::handle_buffer`, from the test on.
abbrev batch_unless : Build → Receivers → ℕ → Bool → ServerAction ⊤
batch_unless build receivers size is_none = if is_none then pure tt else (do
  modify (start_batch size)
  counts ← drain build receivers size (0, 0)
  modify (finish_batch counts))

module _ (build : Build) (receivers : Receivers) (all_open : AllOpen receivers) where
  handle_buffer_some :
      (x : PendingTransaction) (xs : List PendingTransaction) (base : Server)
      → AllConsistent base.accounts
      → let self = record base { ordered_messages = x ∷ xs } in
        handle_buffer build receivers self ≡ (ok tt, flushed build self)
  unfolding handle_buffer
  handle_buffer_some x xs base c =
      let self : Server = record base { ordered_messages = x ∷ xs } in
      let size = length (x ∷ xs) in
      let full : (size == 0) ≡ false = ground arith in
      ap (λ is_none. batch_unless build receivers size is_none self) full
      ∙ ap (λ p. ((λ (_ : Server). p) >>= λ counts. modify (finish_batch counts)) self)
          (drain_lem build receivers all_open size (x ∷ xs) (0, 0) (start_batch size self) c
            (omega arith))

  handle_buffer_of :
      (buffer : List PendingTransaction) (base : Server)
      → AllConsistent base.accounts
      → let self = record base { ordered_messages = buffer } in
        ((handle_buffer build receivers self).0 ≡ ok tt)
        × Flushes build self (handle_buffer build receivers self).1
  unfolding handle_buffer run_accounts run_sent pop_all
  handle_buffer_of [] base c = (
    refl,
    record {
      emptied = refl;
      accounts = refl;
      sent = sym (append-nil base.sent);
      config = refl;
      completed = refl;
      counted = omega arith;
    },
  )
  handle_buffer_of (x ∷ xs) base c =
      let self : Server = record base { ordered_messages = x ∷ xs } in
      subst (λ p. (p.0 ≡ ok tt) × Flushes build self p.1) (sym (handle_buffer_some x xs base c))
        (refl, flushed-Flushes build self c)

  -- While the receivers stay and every account is consistent, a batch returns normally: it leaves
  -- the buffer empty, the accounts and the outcomes sent are those of its messages processed one
  -- after the other in the order in which the heap gives them out, no completion is confirmed, and
  -- the counters of processed and failed transactions together grow by the size of the buffer.
  pub handle_buffer_lem :
      (self : Server)
      → AllConsistent self.accounts
      → ((handle_buffer build receivers self).0 ≡ ok tt)
        × Flushes build self (handle_buffer build receivers self).1
  handle_buffer_lem self c = handle_buffer_of self.ordered_messages self c
