-- ===== src/Pipeline/Run.antt =====
-- The end of a run: what `main` (src/main.rs) does when the completion signal arrives, or when its
-- sender is gone.
use nda_takehome.Base.{
  ℕ, ◌^◌, ◌<◌, ⊤, Bool, true, Option, some, List, [], ◌∷◌, ◌++◌, length, ◌≡◌, refl, sym, ap, ◌∙◌,
  arith, subst, if◌then◌else◌,
}
use nda_takehome.Base.Outcome.{Outcome, ok, err, panicked, Build}
use nda_takehome.Base.Action.{Action}
use nda_takehome.Collections.{HashMap, contains}
use nda_takehome.Domain.Account.State.{Account}
use nda_takehome.Message.Output.{Field}
use nda_takehome.Infrastructure.CsvReader.{RawInputMessage, ReadError}
use nda_takehome.Infrastructure.CsvReader.Rows.{scan}
use nda_takehome.Infrastructure.CsvWriter.{Serializer, IsRecording, WriteError, header}
use nda_takehome.Service.PendingTransaction.{Channel}
use nda_takehome.Service.State.{Receivers, ServiceConfig, new}
use nda_takehome.Service.Engine.{server_forever}
use nda_takehome.Service.Sequential.{run_accounts}
use nda_takehome.Service.Sequential.Pending.{AllOpen}
use nda_takehome.Service.Snapshot.{Snapshot, write_snapshot}
use nda_takehome.Service.Snapshot.Rows.{account_rows, write_snapshot_lem}
use nda_takehome.Pipeline.{load_file}
use nda_takehome.Pipeline.EndToEnd.{pending_all, confirmed, load_and_serve}

pub data MainError : Type 0 where
  signal_dropped : MainError
  snapshot_failed : WriteError → MainError

abbrev pub snapshot_error : Outcome WriteError ⊤ → Outcome MainError ⊤
snapshot_error (ok u) = ok u
snapshot_error (err e) = err (snapshot_failed e)
snapshot_error panicked = panicked

pub contains_self : (k : ℕ) → contains k (k ∷ []) ≡ true
unfolding contains
contains_self k = ground arith

module _ {W : Type 0} (serializer : Serializer W) where
  -- `completion_result?; svc.write_snapshot(…).await?`, by whether the signal has come or its
  -- sender was dropped.
  unfoldable pub on_completion : Bool → HashMap Account → Action (Snapshot W) MainError ⊤
  unfolding write_snapshot
  on_completion signalled accounts self =
      let (result, self') = write_snapshot serializer accounts self in
      if signalled then (snapshot_error result, self') else (err signal_dropped, self)

  -- A run of `main` on the rows of a file: the loader, the service, and the snapshot.
  unfoldable pub run :
      Build
      → Receivers
      → ServiceConfig
      → Channel
      → Channel
      → Option (List (Option RawInputMessage))
      → Action (Snapshot W) MainError ⊤
  unfolding on_completion server_forever contains
  run build receivers config tx_sx signal_sx file =
      let (loaded, rx) = load_file build tx_sx signal_sx file in
      let (served, svc) = server_forever build receivers rx (new config) in
      on_completion (contains signal_sx svc.completed) svc.accounts

  module _ (build : Build) (receivers : Receivers) (all_open : AllOpen receivers)
      (config : ServiceConfig) (tx_sx signal_sx : Channel) (records : List (Option RawInputMessage))
      (few : length records < 2 ^ 64) (self : Snapshot W) where
    pub run_by :
        (result : Outcome ReadError ⊤)
        → (scan build 0 records).1 ≡ result
        → run build receivers config tx_sx signal_sx (some records) self
          ≡ on_completion
              (contains signal_sx (confirmed signal_sx result))
              (run_accounts build (pending_all tx_sx (scan build 0 records).0) [])
              self
    unfolding run
    run_by result e =
        let (loaded, served, accounts, sent, completed) =
          load_and_serve build receivers all_open config tx_sx signal_sx records few in
        rw (completed, accounts, e) refl

    -- A file of fewer than 2^64 rows with a bad row leaves no snapshot: when the receivers stay, the
    -- run ends with the error of the dropped signal, and nothing has been written.
    pub run_bad :
        (e : ReadError)
        → (scan build 0 records).1 ≡ err e
        → run build receivers config tx_sx signal_sx (some records) self
          ≡ (err signal_dropped, self)
    unfolding on_completion contains
    run_bad e bad = run_by (err e) bad

    -- A file of fewer than 2^64 rows, all of them good, is written out as it was processed: when the
    -- receivers stay and the sink takes everything, the run succeeds, and what it has written is the
    -- header and one row for each account that the messages make, one after the other.
    pub run_good :
        (rows : W → List (List Field))
        → IsRecording serializer rows
        → (scan build 0 records).1 ≡ ok tt
        → let (result, self') = run build receivers config tx_sx signal_sx (some records) self in
          let accounts = run_accounts build (pending_all tx_sx (scan build 0 records).0) [] in
          (result ≡ ok tt)
          × (rows self'.writer ≡ rows self.writer ++ header ∷ account_rows accounts)
    unfolding on_completion
    run_good rows recording good =
        let accounts = run_accounts build (pending_all tx_sx (scan build 0 records).0) [] in
        let (written, added, count, locked) =
          write_snapshot_lem serializer rows recording accounts self in
        subst {A = Outcome MainError ⊤ × Snapshot W}
          (λ (result, self').
            (result ≡ ok tt)
            × (rows self'.writer ≡ rows self.writer ++ header ∷ account_rows accounts))
          (sym (
            run_by (ok tt) good
            ∙ ap (λ signalled. on_completion signalled accounts self) (contains_self signal_sx)))
          (ap snapshot_error written, added)
