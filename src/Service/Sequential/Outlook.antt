-- ===== src/Service/Sequential/Outlook.antt =====
-- What the engine still has to do, for messages that arrive in order (src/service/mod.rs).
use nda_takehome.Base.{
  List, [], ◌∷◌, ◌++◌, ◌≡◌, refl, sym, ap, ◌∙◌, arith, length, append_assoc, subst, All-left,
}
use nda_takehome.Base.Outcome.{Build}
use nda_takehome.Collections.Heap.Order.{IsStrict, pop_all_strict}
use nda_takehome.Service.PendingTransaction.{Channel, PendingTransaction, cmp, cmp-IsOrder}
use nda_takehome.Service.State.{
  Server, Sent, ServiceMessage, incoming, transaction_batch_completion,
}
use nda_takehome.Service.Sequential.{Accounts, run_accounts, run_sent}
use nda_takehome.Service.Sequential.Accounts.{
  AllConsistent, run_accounts-AllConsistent, run_accounts-append, run_sent-append,
}
use nda_takehome.Service.Sequential.Batch.{in_order, Flushes}

-- The transactions among the messages.
abbrev pub incoming_of : List ServiceMessage → List PendingTransaction
incoming_of [] = []
incoming_of (incoming m c ∷ rx) = (record { message = m; callback = c }) ∷ incoming_of rx
incoming_of (transaction_batch_completion c ∷ rx) = incoming_of rx

-- The batches that are to be confirmed.
abbrev pub completions_of : List ServiceMessage → List Channel
completions_of [] = []
completions_of (incoming m c ∷ rx) = completions_of rx
completions_of (transaction_batch_completion c ∷ rx) = c ∷ completions_of rx

-- Each message is older than all that come after it.
abbrev pub InOrder : List PendingTransaction → Type 0
InOrder txs = IsStrict cmp txs

strict_left : (xs ys : List PendingTransaction) → InOrder (xs ++ ys) → InOrder xs
strict_left [] ys h = tt
strict_left (x ∷ xs) ys h = (All-left _ xs ys h.0, strict_left xs ys h.1)

strict_right : (xs ys : List PendingTransaction) → InOrder (xs ++ ys) → InOrder ys
strict_right [] ys h = h
strict_right (x ∷ xs) ys h = strict_right xs ys h.1

-- What is left to be done when `rx` is still to be received.
pub record Outlook : Type 0 where
  pub accounts : Accounts
  pub sent : List Sent
  pub completed : List Channel

abbrev pub outlook : Build → List ServiceMessage → Server → Outlook
outlook build rx self = record {
  accounts = run_accounts build (self.ordered_messages ++ incoming_of rx) self.accounts;
  sent = self.sent ++ run_sent build (self.ordered_messages ++ incoming_of rx) self.accounts;
  completed = self.completed ++ completions_of rx;
}

-- The rest, `after`, leads where `before` led.
pub record OnTrack (build : Build) (before after : List ServiceMessage) (self self' : Server)
    : Type 0 where
  pub same : outlook build after self' ≡ outlook build before self
  pub consistent : AllConsistent self'.accounts
  pub strict : InOrder (self'.ordered_messages ++ incoming_of after)
  pub config : self'.config ≡ self.config

pub Flushes-OnTrack :
    (build : Build) (self self' : Server) (rx : List ServiceMessage)
    → AllConsistent self.accounts
    → InOrder (self.ordered_messages ++ incoming_of rx)
    → Flushes build self self'
    → OnTrack build rx rx self self'
Flushes-OnTrack build self self' rx c strict flushes =
    let rest = incoming_of rx in
    let buffer = self.ordered_messages in
    let sorted : in_order buffer ≡ buffer =
      pop_all_strict cmp cmp-IsOrder (length buffer) buffer (strict_left buffer rest strict)
        (omega arith) in
    let same : self'.accounts ≡ run_accounts build buffer self.accounts =
      flushes.accounts ∙ ap (λ txs. run_accounts build txs self.accounts) sorted in
    let more : self'.sent ≡ self.sent ++ run_sent build buffer self.accounts =
      flushes.sent ∙ ap (λ txs. self.sent ++ run_sent build txs self.accounts) sorted in
    record {
      same =
          rw
            (
              flushes.emptied,
              same,
              more,
              flushes.completed,
              run_accounts-append build buffer rest self.accounts,
              run_sent-append build buffer rest self.accounts,
              append_assoc self.sent (run_sent build buffer self.accounts)
                  (run_sent build rest (run_accounts build buffer self.accounts)),
            )
            refl;
      consistent =
          subst AllConsistent (sym same) (run_accounts-AllConsistent build buffer self.accounts c);
      strict =
          subst (λ txs. InOrder (txs ++ rest)) (sym flushes.emptied)
            (strict_right buffer rest strict);
      config = flushes.config;
    }

pub OnTrack-trans :
    {build : Build} {rx1 rx2 rx3 : List ServiceMessage} {self1 self2 self3 : Server}
    → OnTrack build rx1 rx2 self1 self2
    → OnTrack build rx2 rx3 self2 self3
    → OnTrack build rx1 rx3 self1 self3
OnTrack-trans first second = record {
  same = second.same ∙ first.same;
  consistent = second.consistent;
  strict = second.strict;
  config = second.config ∙ first.config;
}
