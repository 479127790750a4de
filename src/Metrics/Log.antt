-- ===== src/Metrics/Log.antt =====
-- src/metrics/metrics_log.rs: the exporter that writes one log line for each data point. What it
-- reads of a metric, through the getters of the OpenTelemetry crate, are records here, and what it
-- hands to `serde_json` is a list of named values; how that library prints it is a parameter, as is
-- how an `f64` is printed.
pub mod Lines
use nda_takehome.Base.{
  suc, ℕ, ◌+◌, Bool, ⊤, Option, none, some, List, [], ◌∷◌, ◌++◌, if◌then◌else◌, map,
}
use nda_takehome.Base.Int.{ℤ, pos, negsuc}
use nda_takehome.Base.Outcome.{Outcome, ok}
use nda_takehome.Text.{Text, codes, text_eq}
use nda_takehome.Text.Numbers.{print}
use nda_takehome.Metrics.{KeyValue}
use mathlib.Core.Option

-- A data point of a gauge or of a sum.
pub record ScalarPoint (T : Type 0) : Type 0 where
  pub value : T
  pub attributes : List KeyValue
  pub exemplars : List T

pub record HistogramPoint (F T : Type 0) : Type 0 where
  pub count : ℕ
  pub sum : T
  pub min : Option T
  pub max : Option T
  pub bounds : List F
  pub bucket_counts : List ℕ
  pub attributes : List KeyValue
  pub exemplars : List T

pub record Bucket : Type 0 where
  pub offset : ℤ
  pub counts : List ℕ

pub record ExponentialPoint (F T : Type 0) : Type 0 where
  pub count : ℕ
  pub sum : T
  pub min : Option T
  pub max : Option T
  pub scale : ℤ
  pub zero_count : ℕ
  pub zero_threshold : F
  pub positive_bucket : Bucket
  pub negative_bucket : Bucket
  pub attributes : List KeyValue
  pub exemplars : List T

pub data MetricData (F T : Type 0) : Type 0 where
  gauge : List (ScalarPoint T) → MetricData F T
  sum : List (ScalarPoint T) → MetricData F T
  histogram : List (HistogramPoint F T) → MetricData F T
  exponential_histogram : List (ExponentialPoint F T) → MetricData F T

pub data AggregatedMetrics (F : Type 0) : Type 0 where
  f64 : MetricData F F → AggregatedMetrics F
  u64 : MetricData F ℕ → AggregatedMetrics F
  i64 : MetricData F ℤ → AggregatedMetrics F

pub record Metric (F : Type 0) : Type 0 where
  pub name : Text
  pub metric_data : AggregatedMetrics F

-- `serde_json::Map<String, Value>` with texts as values.
abbrev pub Attributes : Type 0
Attributes = List (Text × Text)

-- `Map::insert`: an old value of the key is replaced.
unfoldable pub insert : Text → Text → Attributes → Attributes
insert k v [] = (k, v) ∷ []
insert k v ((j, w) ∷ m) =
    let rest = insert k v m in if text_eq k j then (k, v) ∷ m else (j, w) ∷ rest

-- `for kv in point.attributes()`
unfoldable pub insert_all : List KeyValue → Attributes → Attributes
unfolding insert
insert_all [] attributes = attributes
insert_all (kv ∷ kvs) attributes = insert_all kvs (insert kv.key kv.value attributes)

-- The values that `json!` is given.
pub data Value (F : Type 0) : Type 0 where
  string : Text → Value F
  optional_string : Option Text → Value F
  strings : List Text → Value F
  natural : ℕ → Value F
  naturals : List ℕ → Value F
  integer : ℤ → Value F
  float : F → Value F
  floats : List F → Value F
  object : Attributes → Value F

abbrev pub Json : Type 0 → Type 0
Json F = List (Text × Value F)

module _ {F T : Type 0} (to_string : T → Text) (name : Text) where
  abbrev pub scalar_json : ScalarPoint T → Json F
  scalar_json point =
      (codes "name", string name)
      ∷ (codes "value", string (to_string point.value))
      ∷ (codes "attributes", object (insert_all point.attributes []))
      ∷ (codes "exemplars", strings (map to_string point.exemplars))
      ∷ []

  abbrev pub histogram_json : HistogramPoint F T → Json F
  histogram_json point =
      (codes "name", string name)
      ∷ (codes "count", natural point.count)
      ∷ (codes "sum", string (to_string point.sum))
      ∷ (codes "min", optional_string (Option.map to_string point.min))
      ∷ (codes "max", optional_string (Option.map to_string point.max))
      ∷ (codes "bounds", floats point.bounds)
      ∷ (codes "bucket_counts", naturals point.bucket_counts)
      ∷ (codes "attributes", object (insert_all point.attributes []))
      ∷ (codes "exemplars", strings (map to_string point.exemplars))
      ∷ []

  abbrev pub exponential_json : ExponentialPoint F T → Json F
  exponential_json point =
      (codes "name", string name)
      ∷ (codes "count", natural point.count)
      ∷ (codes "sum", string (to_string point.sum))
      ∷ (codes "min", optional_string (Option.map to_string point.min))
      ∷ (codes "max", optional_string (Option.map to_string point.max))
      ∷ (codes "scale", integer point.scale)
      ∷ (codes "zero_count", natural point.zero_count)
      ∷ (codes "zero_threshold", float point.zero_threshold)
      ∷ (codes "positive_offset", integer (point.positive_bucket).offset)
      ∷ (codes "positive_counts", naturals (point.positive_bucket).counts)
      ∷ (codes "negative_offset", integer (point.negative_bucket).offset)
      ∷ (codes "negative_counts", naturals (point.negative_bucket).counts)
      ∷ (codes "attributes", object (insert_all point.attributes []))
      ∷ (codes "exemplars", strings (map to_string point.exemplars))
      ∷ []

  -- The object of each data point.
  unfoldable pub metric_jsons : MetricData F T → List (Json F)
  unfolding insert_all
  metric_jsons (gauge points) = map scalar_json points
  metric_jsons (sum points) = map scalar_json points
  metric_jsons (histogram points) = map histogram_json points
  metric_jsons (exponential_histogram points) = map exponential_json points

-- One `tracing::debug!` event.
pub record LogEvent : Type 0 where
  pub name : Text
  pub entry : Text

-- `i64::to_string`
abbrev pub print_i64 : ℤ → Text
print_i64 (pos n) = print n
print_i64 (negsuc n) = b'-' ∷ print (suc n)

module _ {F : Type 0} (print_f64 : F → Text) (print_json : Json F → Text) where
  -- `metric_as_log_entries_typed`
  unfoldable pub metric_as_log_entries_typed :
      {T : Type 0} → (T → Text) → Text → MetricData F T → List Text
  unfolding metric_jsons
  metric_as_log_entries_typed to_string name metric_data =
      map print_json (metric_jsons to_string name metric_data)

  -- `metric_as_log_entries`, by the type of the numbers.
  abbrev pub entries_of : Text → AggregatedMetrics F → List Text
  entries_of name (f64 t) = metric_as_log_entries_typed print_f64 name t
  entries_of name (u64 t) = metric_as_log_entries_typed print name t
  entries_of name (i64 t) = metric_as_log_entries_typed print_i64 name t

  -- `metric_as_log_entries`
  unfoldable pub metric_as_log_entries : Metric F → List Text
  unfolding metric_as_log_entries_typed print
  metric_as_log_entries metric = entries_of metric.name metric.metric_data

  abbrev pub events_of : Metric F → List LogEvent
  events_of metric =
      map (λ entry. record { name = metric.name; entry = entry }) (metric_as_log_entries metric)

  -- `for metric in scope.metrics()`
  unfoldable pub export_scope : List (Metric F) → List LogEvent
  unfolding metric_as_log_entries
  export_scope [] = []
  export_scope (metric ∷ metrics) = events_of metric ++ export_scope metrics

  -- `TraceLevelExporter::export`: what it logs for the metrics of each scope.
  unfoldable pub export : List (List (Metric F)) → List LogEvent
  unfolding export_scope
  export [] = []
  export (scope ∷ scopes) = export_scope scope ++ export scopes
