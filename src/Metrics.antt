-- ===== src/Metrics.antt =====
-- src/metrics.rs: the instruments, the labels and the exporter.
pub mod Log
use nda_takehome.Base.{Bool, Option, none, some, List, [], ◌∷◌, ◌++◌, if◌then◌else◌}
use nda_takehome.Text.{Text, codes}
use nda_takehome.Service.State.{Labels}

-- What an instrument is made with: `Counter<u64>`, `Gauge<f64>` and `Histogram<f64>`.
pub record Counter : Type 0 where
  pub name : Text
  pub description : Text
  pub unit : Option Text

pub record Gauge : Type 0 where
  pub name : Text
  pub description : Text
  pub unit : Option Text

pub record Histogram : Type 0 where
  pub name : Text
  pub description : Text
  pub unit : Option Text

abbrev u64_counter : Text → Text → Option Text → Counter
u64_counter name description unit = record { name = name; description = description; unit = unit }

abbrev f64_gauge : Text → Text → Option Text → Gauge
f64_gauge name description unit = record { name = name; description = description; unit = unit }

abbrev f64_histogram : Text → Text → Option Text → Histogram
f64_histogram name description unit = record { name = name; description = description; unit = unit }

-- `Metrics`
pub record Instruments : Type 0 where
  pub csv_files_loaded : Counter
  pub csv_parse_errors : Counter
  pub csv_rows_parsed : Counter
  pub service_ticks : Counter
  pub service_accounts_total : Gauge
  pub service_batches_processed : Counter
  pub service_batch_size : Histogram
  pub service_batch_duration_ms : Histogram
  pub service_transactions_processed : Counter
  pub service_batch_transactions_ok : Counter
  pub service_batch_transactions_failed : Counter
  pub snapshot_accounts_written : Gauge
  pub snapshot_accounts_locked : Gauge
  pub snapshot_duration_ms : Histogram
  pub pipeline_duration : Histogram
  pub pipeline_messages_enqueued : Counter
  pub pipeline_load_duration : Histogram
  pub pipeline_transactions_ok : Counter
  pub pipeline_transactions_failed : Counter

-- `METRICS`
abbrev pub instruments : Instruments
instruments = record {
  csv_files_loaded =
      u64_counter (codes "csv.files_loaded") (codes "Number of CSV files loaded") none;
  csv_parse_errors =
      u64_counter (codes "csv.parse_errors") (codes "Number of CSV rows that failed to parse") none;
  csv_rows_parsed =
      u64_counter (codes "csv.rows_parsed") (codes "Total rows successfully parsed from CSV files")
        none;
  service_ticks = u64_counter (codes "service.ticks") (codes "Total event loop iterations") none;
  service_accounts_total =
      f64_gauge (codes "service.accounts_total") (codes "Total accounts at shutdown") none;
  service_batches_processed =
      u64_counter (codes "service.batches_processed") (codes "Number of batch flushes") none;
  service_batch_size =
      f64_histogram (codes "service.batch_size") (codes "Transactions per batch flush") none;
  service_batch_duration_ms =
      f64_histogram (codes "service.batch_duration_ms") (codes "Time to process each batch")
        (some (codes "ms"));
  service_transactions_processed =
      u64_counter (codes "service.transactions_processed") (codes "Per-type transaction outcomes")
        none;
  service_batch_transactions_ok =
      u64_counter (codes "service.batch_transactions_ok")
        (codes "Successful transactions across all batches") none;
  service_batch_transactions_failed =
      u64_counter (codes "service.batch_transactions_failed")
        (codes "Failed transactions across all batches") none;
  snapshot_accounts_written =
      f64_gauge (codes "snapshot.accounts_written") (codes "Accounts serialized to output") none;
  snapshot_accounts_locked =
      f64_gauge (codes "snapshot.accounts_locked") (codes "Locked accounts at output time") none;
  snapshot_duration_ms =
      f64_histogram (codes "snapshot.duration_ms") (codes "Time to write the snapshot")
        (some (codes "ms"));
  pipeline_duration =
      f64_histogram (codes "pipeline.total_duration_ms") (codes "Wall-clock time for the full run")
        (some (codes "ms"));
  pipeline_messages_enqueued =
      u64_counter (codes "pipeline.messages_enqueued") (codes "Messages sent to the service") none;
  pipeline_load_duration =
      f64_histogram (codes "pipeline.load_duration_ms")
        (codes "Time to read CSV and enqueue messages") (some (codes "ms"));
  pipeline_transactions_ok =
      u64_counter (codes "pipeline.transactions_ok")
        (codes "Successful outcomes observed by the outcome handler") none;
  pipeline_transactions_failed =
      u64_counter (codes "pipeline.transactions_failed")
        (codes "Failed outcomes observed by the outcome handler") none;
}

pub record KeyValue : Type 0 where
  pub key : Text
  pub value : Text

abbrev pub tx_type_kv : Text → KeyValue
tx_type_kv label = record { key = codes "type"; value = label }

abbrev pub outcome_kv : Text → KeyValue
outcome_kv label = record { key = codes "outcome"; value = label }

abbrev error_kv : Option Text → List KeyValue
error_kv none = []
error_kv (some e) = (record { key = codes "error"; value = e }) ∷ []

-- The attributes that `Service::handle_buffer` (src/service/mod.rs) records an outcome with.
abbrev pub attributes_of : Labels → List KeyValue
attributes_of labels = tx_type_kv labels.type ∷ outcome_kv labels.outcome ∷ error_kv labels.error

-- `setup_exporter`, where `provider` makes a provider with the exporter of Metrics/Log for the
-- service of that name, and the flag is the feature `metrics_log`.
abbrev pub setup_exporter : {P : Type 0} → (Text → P) → Bool → Option P
setup_exporter provider metrics_log =
    if metrics_log then some (provider (codes "nda-takehome")) else none
