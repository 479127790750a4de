-- ===== src/Service/Termination.antt =====
-- The loop of `Service::handle_buffer` (src/service/mod.rs), without fuel.
use nda_takehome.Base.{
  ℕ, zero, suc, ◌≤◌, List, [], ◌∷◌, none, some, ◌≡◌, ◌↔◌, refl, sym, ap, arith, length, ◌⊎◌, inl,
  inr, subst,
}
use nda_takehome.Base.Outcome.{Outcome, ok, err, panicked, Build, debug, release}
use nda_takehome.Base.Action.{◌>>=◌}
use nda_takehome.Base.Loop.{Runs, stops, goes_on, Runs-unique}
use nda_takehome.Collections.Heap.{select, pop}
use nda_takehome.Collections.Heap.Order.{length-select}
use nda_takehome.Service.PendingTransaction.{PendingTransaction, cmp}
use nda_takehome.Service.State.{Server, Receivers, ServiceError}
use nda_takehome.Service.Engine.{
  Counts, process_entry, assert_entry, count_result, send_outcome, process_pending, drain,
}

-- Where a round of the loop leads: to the next round, or out of the loop.
abbrev after_round :
    Outcome ServiceError Counts × Server
    → (Counts × Server) ⊎ (Outcome ServiceError Counts × Server)
after_round (ok counts, self) = inl (counts, self)
after_round (err e, self) = inr (err e, self)
after_round (panicked, self) = inr (panicked, self)

-- One round of `while let Some(tx) = buffer.pop()`.
unfoldable pub drain_round :
    Build → Receivers → Counts × Server → (Counts × Server) ⊎ (Outcome ServiceError Counts × Server)
unfolding pop
drain_round build receivers (counts, self) = elim (pop cmp self.ordered_messages) [
  | none ↦ inr (ok counts, self)
  | some (tx, rest) ↦
      after_round
        (process_pending build receivers tx counts (record self { ordered_messages = rest }))
]

module _ (receivers : Receivers) where
  process_pending-ordered_messages :
      (build : Build) (tx : PendingTransaction) (counts : Counts) (self : Server)
      → (process_pending build receivers tx counts self).1.ordered_messages ≡ self.ordered_messages
  unfolding process_pending process_entry count_result send_outcome assert_entry
  process_pending-ordered_messages debug tx counts self = ground arith
  process_pending-ordered_messages release tx counts self = ground arith

module _ (build : Build) (receivers : Receivers) where
  after_round-Runs :
      (fuel : ℕ) (start : Server) (before : Counts × Server)
      (r : Outcome ServiceError Counts × Server)
      → drain_round build receivers before ≡ after_round r
      → ((counts : Counts)
          → r.0 ≡ ok counts
          → Runs
              (drain_round build receivers)
              (counts, r.1)
              (drain build receivers fuel counts r.1))
      → Runs
          (drain_round build receivers)
          before
          (((λ (_ : Server). r) >>= λ counts. drain build receivers fuel counts) start)
  after_round-Runs fuel start before (ok counts, self) e next = goes_on e (next counts refl)
  after_round-Runs fuel start before (err _, self) e next = stops e
  after_round-Runs fuel start before (panicked, self) e next = stops e

  drain-Runs :
      (fuel : ℕ) (buffer : List PendingTransaction) (counts : Counts) (base : Server)
      → length buffer ≤ fuel
      → let self = record base { ordered_messages = buffer } in
        Runs (drain_round build receivers) (counts, self) (drain build receivers fuel counts self)
  unfolding drain drain_round
  drain-Runs zero [] counts base h = stops refl
  drain-Runs zero (x ∷ xs) counts base h = elim h [ ]
  drain-Runs (suc fuel) [] counts base h = stops refl
  drain-Runs (suc fuel) (x ∷ xs) counts base h =
      let (tx, rest) = select cmp x xs in
      let start : Server = record base { ordered_messages = rest } in
      let r = process_pending build receivers tx counts start in
      let same : record r.1 { ordered_messages = rest } ≡ r.1 =
        ap (λ b. record r.1 { ordered_messages = b })
          (sym (process_pending-ordered_messages receivers build tx counts start)) in
      after_round-Runs fuel start (counts, record base { ordered_messages = x ∷ xs }) r refl
        λ counts' is_ok.
          subst
            (λ self.
              Runs (drain_round build receivers) (counts', self)
                (drain build receivers fuel counts' self))
            same (drain-Runs fuel rest counts' r.1 (omega (arith, length-select cmp x xs)))

  -- The loop over the buffer comes to an end, from any state, whatever the receivers do and also
  -- when a message fails: written without fuel, round by round until the buffer is empty or a round
  -- fails, it ends where `drain` ends with any fuel of at least the length of the buffer, and
  -- nowhere else.
  pub drain-Runs_iff :
      (fuel : ℕ) (counts : Counts) (self : Server) (r : Outcome ServiceError Counts × Server)
      → length self.ordered_messages ≤ fuel
      → Runs (drain_round build receivers) (counts, self) r
        ↔ (drain build receivers fuel counts self ≡ r)
  drain-Runs_iff fuel counts self r h =
      let run = drain-Runs fuel self.ordered_messages counts self h in
      (
        λ run'. Runs-unique (drain_round build receivers) run run',
        λ e. subst (Runs (drain_round build receivers) (counts, self)) e run,
      )
