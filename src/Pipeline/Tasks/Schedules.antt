-- ===== src/Pipeline/Tasks/Schedules.antt =====
-- Every schedule of the tasks of `main` (src/main.rs): where it leads, and that it comes to an end.
use nda_takehome.Base.{
  ◌+◌, ◌^◌, ◌<◌, ⊤, Option, some, List, ◌≡◌, refl, sym, ap, ◌∙◌, arith, subst, ◌⊎◌, inl, inr,
  length,
}
use nda_takehome.Base.Outcome.{Outcome, Build}
use nda_takehome.Infrastructure.CsvReader.{RawInputMessage}
use nda_takehome.Infrastructure.CsvReader.Rows.{scan, scan-NumberedFrom}
use nda_takehome.Infrastructure.CsvWriter.{Serializer}
use nda_takehome.Service.PendingTransaction.{Channel}
use nda_takehome.Service.State.{ServiceConfig, Receivers}
use nda_takehome.Service.Snapshot.{Snapshot}
use nda_takehome.Service.Sequential.Accounts.{none-AllConsistent}
use nda_takehome.Service.Sequential.Pending.{AllOpen}
use nda_takehome.Service.Sequential.Outlook.{InOrder}
use nda_takehome.Pipeline.EndToEnd.{incoming_of_all, NumberedFrom-InOrder}
use nda_takehome.Pipeline.Run.{MainError, run, run_by}
use nda_takehome.Pipeline.Tasks.{
  System, waiting, ended, init, load_row, load_end, load_bad, load_panicked, load_not_sent, serve,
  count_one, count_end, main_completes, main_runs_out, Step, Reach, begin, later,
}
use nda_takehome.Pipeline.Tasks.Invariant.{before_signal, Running}
use nda_takehome.Pipeline.Tasks.Moves.{
  load_row-Running, load_end-Running, load_bad-Running, load_panicked-Running,
}
use nda_takehome.Pipeline.Tasks.Serving.{serve-Running, count_one-Running, count_end-Running}
use nda_takehome.Pipeline.Tasks.Ending.{expected, on_completion-expected}

module _ {W : Type 0} where
  -- `main` has ended with the result and has left the snapshot.
  abbrev pub EndsWith : Outcome MainError ⊤ × Snapshot W → System W → Type 0
  EndsWith (result, snapshot) s = (s.main ≡ ended result) × (s.snapshot ≡ snapshot)

module _ {W : Type 0} (serializer : Serializer W) (build : Build) (tx_sx signal_sx : Channel)
    (config : ServiceConfig) (records : List (Option RawInputMessage)) (snapshot : Snapshot W) where
  abbrev pub Runs : System W → Type 0
  Runs = Running build tx_sx signal_sx config records snapshot

  abbrev pub found : Outcome MainError ⊤ × Snapshot W
  found = expected serializer build tx_sx signal_sx config records snapshot

  abbrev pub Holds : System W → Type 0
  Holds s = ((s.main ≡ waiting) × Runs s) ⊎ EndsWith found s

  pub init-Holds : length records < 2 ^ 64 → Holds (init config (some records) snapshot)
  init-Holds few =
      let (messages, result) = scan build 0 records in
      inl (
        refl,
        record {
          alive = refl;
          leads = ((refl, omega arith), refl);
          track = record {
            same = refl;
            consistent = none-AllConsistent;
            strict =
                subst InOrder (sym (incoming_of_all tx_sx signal_sx messages result))
                  (NumberedFrom-InOrder tx_sx 0 messages (scan-NumberedFrom build 0 records));
            config = refl;
          };
          phase = before_signal messages refl refl;
          idle = λ e. ground arith;
          unwritten = refl;
        },
      )

  pub Step-Holds :
      (s s' : System W) → Step serializer build tx_sx signal_sx s s' → Runs s → Holds s'
  Step-Holds s _ (wait, load_row {l} {msg} {reader} is_loading alive e) runs = inl (
    wait,
    load_row-Running build tx_sx signal_sx config records snapshot s l msg reader is_loading e runs,
  )
  Step-Holds s _ (wait, load_end {l} {reader} is_loading alive e) runs = inl (
    wait,
    load_end-Running build tx_sx signal_sx config records snapshot s l reader
        (s.pipeline_messages_enqueued + l.msg_count) is_loading e runs,
  )
  Step-Holds s _ (wait, load_bad {l} {e} {reader} is_loading is_err) runs = inl (
    wait,
    load_bad-Running build tx_sx signal_sx config records snapshot s l e reader is_loading is_err
        runs,
  )
  Step-Holds s _ (wait, load_panicked {l} {reader} is_loading is_panic) runs = inl (
    wait,
    load_panicked-Running build tx_sx signal_sx config records snapshot s l reader is_loading
        is_panic runs,
  )
  Step-Holds s _ (wait, load_not_sent is_loading gone e) runs = ground (arith, runs.alive)
  Step-Holds s _ (wait, serve {msg} {rest} {result} {service} alive queue e) runs = inl (
    wait,
    serve-Running build tx_sx signal_sx config records snapshot s msg rest result service wait queue
        e runs,
  )
  Step-Holds s _ (wait, count_one {sent} {rest} counting more) runs =
      inl (wait, count_one-Running build tx_sx signal_sx config records snapshot s _ _ runs)
  Step-Holds s _ (wait, count_end counting no_more none_left) runs =
      inl
        (wait, count_end-Running build tx_sx signal_sx config records snapshot s _ _ none_left runs)
  Step-Holds s _ (wait, main_completes {signalled} {result} has lost e) runs =
      let same =
        sym e
        ∙ on_completion-expected serializer build tx_sx signal_sx config records snapshot s
            signalled has lost runs in
      inr (ap (λ p. ended p.0) same, ap (λ p. p.1) same)
  Step-Holds s _ (wait, main_runs_out is_loaded gone done) runs = ground (arith, runs.alive)

  pub Reach-Holds :
      {s : System W}
      → length records < 2 ^ 64
      → Reach serializer build tx_sx signal_sx (init config (some records) snapshot) s
      → Holds s
  Reach-Holds few begin = init-Holds few
  Reach-Holds few (later {s} {s'} r step) = elim (Reach-Holds few r) [
    | inl (wait, runs) ↦ Step-Holds s s' step runs
    | inr (done, written) ↦ ground (arith, step.0)
  ]

  -- In whatever order the loader, the service, the counting task and `main` move, a file of fewer
  -- than 2^64 rows comes to the same end. Until `main` ends it has written nothing, and when it has
  -- ended, its result and what it has written are those of the run in which the loader, the service
  -- and the snapshot come one after the other.
  pub Reach-run :
      (receivers : Receivers) (all_open : AllOpen receivers) (few : length records < 2 ^ 64)
      (s : System W)
      → Reach serializer build tx_sx signal_sx (init config (some records) snapshot) s
      → ((s.main ≡ waiting) × (s.snapshot ≡ snapshot))
        ⊎ EndsWith (run serializer build receivers config tx_sx signal_sx (some records) snapshot) s
  Reach-run receivers all_open few s r = elim (Reach-Holds few r) [
    | inl (wait, runs) ↦ inl (wait, runs.unwritten)
    | inr done ↦ inr (
        subst (λ p. EndsWith p s)
          (sym (
            run_by serializer build receivers all_open config tx_sx signal_sx records few snapshot
              (scan build 0 records).1 refl))
          done)
  ]
