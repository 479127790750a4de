-- ===== src/Examples/TaskExamples.antt =====
-- The theorems on the tasks of `main`, at a file with a bad third row and at a good file.
use nda_takehome.Base.{List, ◌≡◌, ◌⊎◌, refl, arith, some}
use nda_takehome.Base.Outcome.{release}
use nda_takehome.Service.State.{default_config}
use nda_takehome.Pipeline.Outcomes.{no_outcomes}
use nda_takehome.Pipeline.Run.{run}
use nda_takehome.Pipeline.Tasks.{System, init, waiting, Reach, Inevitable}
use nda_takehome.Pipeline.Tasks.Schedules.{EndsWith, Reach-run}
use nda_takehome.Pipeline.Tasks.Liveness.{run-Inevitable, run-uncounted}
use nda_takehome.Message.Output.{Field}
use nda_takehome.Examples.{open_ends}
use nda_takehome.Examples.PipelineExamples.{file, good_file, keeping, nothing_written}

-- A schedule on which `main` has ended.
abbrev whole_run :
    (s : System (List (List Field))) × (Reach keeping release 7 8
        (init default_config (some good_file) nothing_written)
        s
      × EndsWith
          (run keeping release open_ends default_config 7 8 (some good_file) nothing_written)
          s
      × (s.tally ≡ no_outcomes)
      × (s.pipeline_transactions_ok ≡ 0)
      × (s.pipeline_transactions_failed ≡ 0))
whole_run =
    run-uncounted keeping release 7 8 default_config good_file nothing_written open_ends
      (λ c sent. refl, λ c sent. refl) (omega arith)

Reach-run_example :
    let s = whole_run.0 in
    ((s.main ≡ waiting) × (s.snapshot ≡ nothing_written))
    ⊎ EndsWith (run keeping release open_ends default_config 7 8 (some good_file) nothing_written) s
Reach-run_example =
    Reach-run keeping release 7 8 default_config good_file nothing_written open_ends
      (λ c sent. refl, λ c sent. refl) (omega arith) whole_run.0 whole_run.1.0

run-Inevitable_example :
    Inevitable keeping release 7 8
      (EndsWith (run keeping release open_ends default_config 7 8 (some file) nothing_written))
      (init default_config (some file) nothing_written)
run-Inevitable_example =
    run-Inevitable keeping release 7 8 default_config file nothing_written open_ends
      (λ c sent. refl, λ c sent. refl) (omega arith)

run-uncounted_example :
    (s : System (List (List Field))) × (Reach keeping release 7 8
        (init default_config (some good_file) nothing_written)
        s
      × EndsWith
          (run keeping release open_ends default_config 7 8 (some good_file) nothing_written)
          s
      × (s.tally ≡ no_outcomes)
      × (s.pipeline_transactions_ok ≡ 0)
      × (s.pipeline_transactions_failed ≡ 0))
run-uncounted_example =
    run-uncounted keeping release 7 8 default_config good_file nothing_written open_ends
      (λ c sent. refl, λ c sent. refl) (omega arith)
