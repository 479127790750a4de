-- ===== src/Metrics/Log/Lines.antt =====
-- The log lines of the metrics exporter (src/metrics/metrics_log.rs), against the data points.
use nda_takehome.Base.{
  Pointwise, Pointwise-map, Pointwise-append, true, Option, none, some, List, [], ◌∷◌, ◌++◌, ◌≡◌,
  refl, ap, ◌∙◌, arith, if◌then◌else◌, map,
}
use nda_takehome.Text.{Text, codes, text_eq}
use nda_takehome.Text.Numbers.{print}
use nda_takehome.Text.Laws.{text_eq_sound}
use nda_takehome.Metrics.{KeyValue}
use nda_takehome.Metrics.Log.{
  MetricData, gauge, sum, histogram, exponential_histogram, Metric, AggregatedMetrics, f64, u64,
  i64, Attributes, insert, insert_all, string, object, Json, metric_jsons, LogEvent,
  metric_as_log_entries_typed, metric_as_log_entries, export_scope, export, entries_of, events_of,
  print_i64, scalar_json, histogram_json, exponential_json,
}

-- The value behind a key.
abbrev pub lookup {ℓ} : {V : Type ℓ} → Text → List (Text × V) → Option V
lookup k [] = none
lookup k ((j, v) ∷ m) = if text_eq k j then some v else lookup k m

-- The value of the last attribute with the key.
abbrev pub last_value : Text → List KeyValue → Option Text → Option Text
last_value k [] found = found
last_value k (kv ∷ kvs) found = last_value k kvs (if text_eq k kv.key then some kv.value else found)

text_eq_refl : (s : Text) → text_eq s s ≡ true
unfolding text_eq
text_eq_refl [] = refl
text_eq_refl (c ∷ s) = ground (arith, text_eq_refl s)

lookup-insert :
    (k j v : Text) (m : Attributes)
    → lookup k (insert j v m) ≡ (if text_eq k j then some v else lookup k m)
unfolding insert
lookup-insert k j v [] = refl
lookup-insert k j v ((i, w) ∷ m) = ground (
  arith,
  lookup-insert k j v m,
  text_eq_sound j i,
  text_eq_sound k j,
  text_eq_sound k i,
  text_eq_refl k,
  text_eq_refl j,
)

lookup-insert_all :
    (k : Text) (kvs : List KeyValue) (m : Attributes)
    → lookup k (insert_all kvs m) ≡ last_value k kvs (lookup k m)
unfolding insert_all
lookup-insert_all k [] m = refl
lookup-insert_all k (kv ∷ kvs) m =
    lookup-insert_all k kvs (insert kv.key kv.value m)
    ∙ ap (last_value k kvs) (lookup-insert k kv.key kv.value m)

-- The attributes of each data point.
abbrev pub point_attributes : {F T : Type 0} → MetricData F T → List (List KeyValue)
point_attributes (gauge points) = map (λ p. p.attributes) points
point_attributes (sum points) = map (λ p. p.attributes) points
point_attributes (histogram points) = map (λ p. p.attributes) points
point_attributes (exponential_histogram points) = map (λ p. p.attributes) points

abbrev metric_attributes : {F : Type 0} → AggregatedMetrics F → List (List KeyValue)
metric_attributes (f64 t) = point_attributes t
metric_attributes (u64 t) = point_attributes t
metric_attributes (i64 t) = point_attributes t

-- The name and the attributes of each data point of the metrics of a scope, and of all scopes.
abbrev pub scope_points : {F : Type 0} → List (Metric F) → List (Text × List KeyValue)
scope_points [] = []
scope_points (metric ∷ metrics) =
    map (λ kvs. (metric.name, kvs)) (metric_attributes metric.metric_data) ++ scope_points metrics

abbrev pub all_points : {F : Type 0} → List (List (Metric F)) → List (Text × List KeyValue)
all_points [] = []
all_points (scope ∷ scopes) = scope_points scope ++ all_points scopes

-- An object with the name of the metric and, for each key, the last attribute of that key.
abbrev pub Describes : {F : Type 0} → Text → List KeyValue → Json F → Type 0
Describes name kvs json =
    (lookup (codes "name") json ≡ some (string name))
    × ((m : Attributes) × ((lookup (codes "attributes") json ≡ some (object m))
          × ((k : Text) → lookup k m ≡ last_value k kvs none)))

metric_jsons_lem :
    {F T : Type 0} (to_string : T → Text) (name : Text) (metric_data : MetricData F T)
    → Pointwise
        (Describes name)
        (point_attributes metric_data)
        (metric_jsons to_string name metric_data)
unfolding metric_jsons text_eq
metric_jsons_lem to_string name (gauge points) =
    Pointwise-map (Describes name) (λ p. p.attributes) (scalar_json to_string name) points
      λ p. (refl, (insert_all p.attributes [], (refl, λ k. lookup-insert_all k p.attributes [])))
metric_jsons_lem to_string name (sum points) =
    Pointwise-map (Describes name) (λ p. p.attributes) (scalar_json to_string name) points
      λ p. (refl, (insert_all p.attributes [], (refl, λ k. lookup-insert_all k p.attributes [])))
metric_jsons_lem to_string name (histogram points) =
    Pointwise-map (Describes name) (λ p. p.attributes) (histogram_json to_string name) points
      λ p. (refl, (insert_all p.attributes [], (refl, λ k. lookup-insert_all k p.attributes [])))
metric_jsons_lem to_string name (exponential_histogram points) =
    Pointwise-map (Describes name) (λ p. p.attributes) (exponential_json to_string name) points
      λ p. (refl, (insert_all p.attributes [], (refl, λ k. lookup-insert_all k p.attributes [])))

module _ {F : Type 0} (print_f64 : F → Text) (print_json : Json F → Text) where
  -- A line under the name of the metric that prints such an object.
  abbrev pub IsLine : Text × List KeyValue → LogEvent → Type 0
  IsLine (name, kvs) event =
      (event.name ≡ name)
      × ((json : Json F) × ((event.entry ≡ print_json json) × Describes name kvs json))

  lines_of :
      (name : Text) (kvss : List (List KeyValue)) (jsons : List (Json F))
      → Pointwise (Describes name) kvss jsons
      → Pointwise IsLine
          (map (λ kvs. (name, kvs)) kvss)
          (map (λ entry. record { name = name; entry = entry }) (map print_json jsons))
  lines_of name [] [] h = tt
  lines_of name [] (json ∷ jsons) h = elim h [ ]
  lines_of name (kvs ∷ kvss) [] h = elim h [ ]
  lines_of name (kvs ∷ kvss) (json ∷ jsons) (d, h) =
      ((refl, (json, (refl, d))), lines_of name kvss jsons h)

  metric_lines :
      (name : Text) (metric_data : AggregatedMetrics F)
      → Pointwise IsLine (map (λ kvs. (name, kvs)) (metric_attributes metric_data)) (
          map
            (λ entry. record { name = name; entry = entry })
            (entries_of print_f64 print_json name metric_data))
  unfolding metric_as_log_entries_typed
  metric_lines name (f64 t) =
      lines_of name (point_attributes t) (metric_jsons print_f64 name t)
        (metric_jsons_lem print_f64 name t)
  metric_lines name (u64 t) =
      lines_of name (point_attributes t) (metric_jsons print name t) (metric_jsons_lem print name t)
  metric_lines name (i64 t) =
      lines_of name (point_attributes t) (metric_jsons print_i64 name t)
        (metric_jsons_lem print_i64 name t)

  export_scope_lem :
      (metrics : List (Metric F))
      → Pointwise IsLine (scope_points metrics) (export_scope print_f64 print_json metrics)
  unfolding export_scope metric_as_log_entries
  export_scope_lem [] = tt
  export_scope_lem (metric ∷ metrics) =
      Pointwise-append IsLine
        (map (λ kvs. (metric.name, kvs)) (metric_attributes metric.metric_data))
        (scope_points metrics) (events_of print_f64 print_json metric)
        (export_scope print_f64 print_json metrics) (metric_lines metric.name metric.metric_data)
        (export_scope_lem metrics)

  -- The exporter logs one line for each data point, in the order of the scopes, their metrics and
  -- the data points, whatever their kind. Each line stands under the name of its metric, and the
  -- object that it prints has that name and maps each key to the last of the point's attributes
  -- with that key, if there is one.
  pub export_lem :
      (scopes : List (List (Metric F)))
      → Pointwise IsLine (all_points scopes) (export print_f64 print_json scopes)
  unfolding export
  export_lem [] = tt
  export_lem (scope ∷ scopes) =
      Pointwise-append IsLine (scope_points scope) (all_points scopes)
        (export_scope print_f64 print_json scope) (export print_f64 print_json scopes)
        (export_scope_lem scope) (export_lem scopes)
