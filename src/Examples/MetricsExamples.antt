-- ===== src/Examples/MetricsExamples.antt =====
-- The metrics exporter, at a counter with two data points.
use nda_takehome.Base.{ℕ, [], ◌∷◌, Pointwise}
use nda_takehome.Text.{Text, codes}
use nda_takehome.Metrics.{tx_type_kv, outcome_kv, instruments}
use nda_takehome.Metrics.Log.{Metric, u64, sum, Json, export}
use nda_takehome.Metrics.Log.Lines.{IsLine, all_points, export_lem}

-- Numbers in place of the `f64`s, printed with no text.
abbrev print_nothing : ℕ → Text
print_nothing a = []

abbrev print_no_json : Json ℕ → Text
print_no_json json = []

abbrev processed : Metric ℕ
processed = record {
  name = (instruments.service_transactions_processed).name;
  metric_data = u64 (
      sum (
        (record {
          value = 2;
          attributes = tx_type_kv (codes "deposit") ∷ outcome_kv (codes "ok") ∷ [];
          exemplars = [];
        })
        ∷ (record {
          value = 1;
          attributes = outcome_kv (codes "ok") ∷ outcome_kv (codes "error") ∷ [];
          exemplars = [];
        })
        ∷ []));
}

export_lem_example :
    Pointwise
      (IsLine print_nothing print_no_json)
      (all_points ((processed ∷ []) ∷ []))
      (export print_nothing print_no_json ((processed ∷ []) ∷ []))
export_lem_example = export_lem print_nothing print_no_json ((processed ∷ []) ∷ [])
