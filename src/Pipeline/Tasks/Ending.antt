-- ===== src/Pipeline/Tasks/Ending.antt =====
-- What `main` (src/main.rs) does when the signal comes, or when its sender is gone.
use nda_takehome.Base.{
  ⊤, true, false, Bool, Option, none, List, [], ◌++◌, ◌≡◌, refl, sym, ap, ◌∙◌, arith, ◌||◌,
  is_empty-nil, append-nil,
}
use nda_takehome.Base.Outcome.{Outcome, Build}
use nda_takehome.Collections.{contains, HashMap}
use nda_takehome.Domain.Account.State.{Account}
use nda_takehome.Infrastructure.CsvReader.{RawInputMessage, ReadError}
use nda_takehome.Infrastructure.CsvReader.Rows.{scan}
use nda_takehome.Infrastructure.CsvWriter.{Serializer}
use nda_takehome.Service.PendingTransaction.{Channel}
use nda_takehome.Service.State.{ServiceConfig}
use nda_takehome.Service.Snapshot.{Snapshot}
use nda_takehome.Service.Sequential.{run_accounts}
use nda_takehome.Service.Sequential.Outlook.{completions_of, incoming_of}
use nda_takehome.Pipeline.EndToEnd.{confirmed, pending_all, incoming_of_all, completions_of_all}
use nda_takehome.Pipeline.Run.{MainError, on_completion, contains_self}
use nda_takehome.Pipeline.Tasks.{
  System, LoadTask, loading, loaded, is_loaded, is_ended, no_signal_sender,
}
use nda_takehome.Pipeline.Tasks.Invariant.{coming, Phase, before_signal, after_signal, Running}

module _ {W : Type 0} (serializer : Serializer W) (build : Build) (tx_sx signal_sx : Channel)
    (config : ServiceConfig) (records : List (Option RawInputMessage)) (snapshot : Snapshot W) where
  -- The result and the snapshot that the file leads to.
  abbrev pub expected : Outcome MainError ⊤ × Snapshot W
  expected =
      on_completion serializer (contains signal_sx (confirmed signal_sx (scan build 0 records).1))
        (run_accounts build (pending_all tx_sx (scan build 0 records).0) []) snapshot

  no_signal_sender_lem :
      (s : System W)
      → no_signal_sender s ≡ true
      → s.service_end ≡ none
      → (is_loaded s.load ≡ true) × (completions_of s.svc_queue ≡ [])
  no_signal_sender_lem s e alive =
      ground (arith, ap is_ended alive, is_empty-nil (completions_of s.svc_queue))

  loaded-coming : (load : LoadTask) → is_loaded load ≡ true → coming build tx_sx signal_sx load ≡ []
  loaded-coming (loading l) e = ground arith
  loaded-coming (loaded r) e = refl

  pub on_completion-expected :
      (s : System W) (signalled : Bool)
      → contains signal_sx (s.service).completed ≡ signalled
      → (signalled || no_signal_sender s) ≡ true
      → Running build tx_sx signal_sx config records snapshot s
      → on_completion serializer signalled (s.service).accounts s.snapshot ≡ expected
  unfolding on_completion contains run_accounts
  on_completion-expected s signalled has e runs = go runs.phase
    where
      result : Outcome ReadError ⊤
      result = (scan build 0 records).1

      accounts : HashMap Account
      accounts = (s.service).accounts

      processed : HashMap Account
      processed = run_accounts build (pending_all tx_sx (scan build 0 records).0) []

      go :
          Phase build tx_sx signal_sx result
            (s.svc_queue ++ coming build tx_sx signal_sx s.load)
            s.service
          → on_completion serializer signalled (s.service).accounts s.snapshot ≡ expected
      go (before_signal ms none_yet rest) =
          let not_yet : signalled ≡ false = sym has ∙ ap (contains signal_sx) none_yet in
          let lost : no_signal_sender s ≡ true =
            ap (λ b. b || no_signal_sender s) (sym not_yet) ∙ e in
          let (ended, none_left) = no_signal_sender_lem s lost runs.alive in
          let unconfirmed : confirmed signal_sx result ≡ [] =
            sym (completions_of_all tx_sx signal_sx ms result)
            ∙ ap completions_of (sym rest)
            ∙ ap (λ l. completions_of (s.svc_queue ++ l)) (loaded-coming s.load ended)
            ∙ ap completions_of (append-nil s.svc_queue)
            ∙ none_left in
          ap (λ b. on_completion serializer b accounts s.snapshot) not_yet
          ∙ ap (on_completion serializer false accounts) runs.unwritten
          ∙ sym (
              ap (λ l. on_completion serializer (contains signal_sx l) processed snapshot)
                unconfirmed)
      go (after_signal good confirmed_it last empty) =
          let has_come : signalled ≡ true =
            sym has ∙ ap (contains signal_sx) confirmed_it ∙ contains_self signal_sx in
          let same : accounts ≡ processed =
            ap (λ txs. run_accounts build (txs ++ []) accounts) (sym empty)
            ∙ ap (λ l. run_accounts build ((s.service).ordered_messages ++ incoming_of l) accounts)
                (sym last)
            ∙ ap (λ o. o.accounts) (runs.track).same
            ∙ ap (λ txs. run_accounts build txs [])
                (incoming_of_all tx_sx signal_sx (scan build 0 records).0 result) in
          ap (λ b. on_completion serializer b accounts s.snapshot) has_come
          ∙ ap (on_completion serializer true accounts) runs.unwritten
          ∙ ap (λ a. on_completion serializer true a snapshot) same
          ∙ sym (
              ap (λ b. on_completion serializer b processed snapshot)
                (ap (λ r. contains signal_sx (confirmed signal_sx r)) good
                  ∙ contains_self signal_sx))
