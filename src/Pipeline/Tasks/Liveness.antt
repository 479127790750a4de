-- ===== src/Pipeline/Tasks/Liveness.antt =====
-- The tasks of `main` (src/main.rs): on every schedule `main` ends, and it does so without waiting for
-- the counting task.
use nda_takehome.Base.{
  ℕ, zero, suc, ◌^◌, ◌<◌, Option, some, List, ◌≡◌, refl, sym, ◌∙◌, arith, subst, inl, inr, length,
}
use nda_takehome.Base.Outcome.{Build}
use nda_takehome.Infrastructure.CsvReader.{RawInputMessage}
use nda_takehome.Infrastructure.CsvReader.Rows.{scan}
use nda_takehome.Infrastructure.CsvWriter.{Serializer}
use nda_takehome.Service.PendingTransaction.{Channel}
use nda_takehome.Service.State.{ServiceConfig, Receivers}
use nda_takehome.Service.Snapshot.{Snapshot}
use nda_takehome.Service.Sequential.Pending.{AllOpen}
use nda_takehome.Service.Sequential.Outlook.{incoming_of}
use nda_takehome.Pipeline.Outcomes.{no_outcomes}
use nda_takehome.Pipeline.Run.{run, run_by}
use nda_takehome.Pipeline.Tasks.{System, init, Reach, begin, later, Inevitable, now, soon}
use nda_takehome.Pipeline.Tasks.Invariant.{sends}
use nda_takehome.Pipeline.Tasks.Schedules.{EndsWith, Holds, found, init-Holds, Step-Holds}
use nda_takehome.Pipeline.Tasks.Distance.{distance, Step-closer}
use nda_takehome.Pipeline.Tasks.Progress.{CountsNothing, Running-CanMove}

module _ {W : Type 0} (serializer : Serializer W) (build : Build) (tx_sx signal_sx : Channel)
    (config : ServiceConfig) (records : List (Option RawInputMessage)) (snapshot : Snapshot W) where
  abbrev total : ℕ
  total = length (incoming_of (sends tx_sx signal_sx (scan build 0 records)))

  Holds-Inevitable :
      (n : ℕ) (s : System W)
      → distance total s < n
      → Holds serializer build tx_sx signal_sx config records snapshot s
      → Inevitable serializer build tx_sx signal_sx
          (EndsWith (found serializer build tx_sx signal_sx config records snapshot))
          s
  Holds-Inevitable n s h (inr done) = now done
  Holds-Inevitable zero s h (inl (wait, runs)) = elim h [ ]
  Holds-Inevitable (suc n) s h (inl (wait, runs)) =
      let (s', (step, quiet)) =
        Running-CanMove serializer build tx_sx signal_sx config records snapshot s s.load
          s.svc_queue wait refl refl runs in
      soon s' step λ s'' step'.
        Holds-Inevitable n s''
          (omega (
            arith,
            Step-closer serializer build tx_sx signal_sx config records snapshot s s'' step' runs,
          ))
          (Step-Holds serializer build tx_sx signal_sx config records snapshot s s'' step' runs)

  -- For a file of fewer than 2^64 rows, every schedule of the loader, the service, the counting
  -- task and `main` comes to the end of `main`: until then some task can move, and no schedule goes
  -- on for ever. It ends with the result and the snapshot of the run in which the loader, the
  -- service and the snapshot come one after the other.
  pub run-Inevitable :
      (receivers : Receivers)
      → AllOpen receivers
      → length records < 2 ^ 64
      → Inevitable serializer build tx_sx signal_sx
          (EndsWith (run serializer build receivers config tx_sx signal_sx (some records) snapshot))
          (init config (some records) snapshot)
  run-Inevitable receivers all_open few =
      let start = init config (some records) snapshot in
      subst (λ p. Inevitable serializer build tx_sx signal_sx (EndsWith p) start)
        (sym (
          run_by serializer build receivers all_open config tx_sx signal_sx records few snapshot
            (scan build 0 records).1 refl))
        (Holds-Inevitable (suc (distance total start)) start (omega arith)
          (init-Holds serializer build tx_sx signal_sx config records snapshot few))

  -- Without the counting task, `main` ends all the same.
  Holds-uncounted :
      (n : ℕ) (start s : System W)
      → distance total s < n
      → Holds serializer build tx_sx signal_sx config records snapshot s
      → Reach serializer build tx_sx signal_sx start s
      → CountsNothing start s
      → (s' : System W) × (Reach serializer build tx_sx signal_sx start s'
          × EndsWith (found serializer build tx_sx signal_sx config records snapshot) s'
          × CountsNothing start s')
  Holds-uncounted n start s h (inr done) reach quiet = (s, (reach, done, quiet))
  Holds-uncounted zero start s h (inl (wait, runs)) reach quiet = elim h [ ]
  Holds-uncounted (suc n) start s h (inl (wait, runs)) reach (q0, q1, q2) =
      let (s', (step, (r0, r1, r2))) =
        Running-CanMove serializer build tx_sx signal_sx config records snapshot s s.load
          s.svc_queue wait refl refl runs in
      Holds-uncounted n start s'
        (omega (
          arith,
          Step-closer serializer build tx_sx signal_sx config records snapshot s s' step runs,
        ))
        (Step-Holds serializer build tx_sx signal_sx config records snapshot s s' step runs)
        (later reach step) (r0 ∙ q0, r1 ∙ q1, r2 ∙ q2)

  -- `main` does not wait for the counting task: for every file of fewer than 2^64 rows there is a
  -- schedule on which `main` ends as it should while not one outcome has been counted or logged and
  -- the two counters of outcomes have not been recorded.
  pub run-uncounted :
      (receivers : Receivers)
      → AllOpen receivers
      → length records < 2 ^ 64
      → (s : System W) × (Reach serializer build tx_sx signal_sx
            (init config (some records) snapshot)
            s
          × EndsWith
              (run serializer build receivers config tx_sx signal_sx (some records) snapshot)
              s
          × (s.tally ≡ no_outcomes)
          × (s.pipeline_transactions_ok ≡ 0)
          × (s.pipeline_transactions_failed ≡ 0))
  run-uncounted receivers all_open few =
      let start = init config (some records) snapshot in
      let (s, (reach, done, (untouched, no_ok, no_failed))) =
        Holds-uncounted (suc (distance total start)) start start (omega arith)
          (init-Holds serializer build tx_sx signal_sx config records snapshot few) begin
          (refl, refl, refl) in
      (
        s,
        (
          reach,
          subst (λ p. EndsWith p s)
              (sym (
                run_by serializer build receivers all_open config tx_sx signal_sx records few
                  snapshot (scan build 0 records).1 refl))
              done,
          untouched,
          no_ok,
          no_failed,
        ),
      )
