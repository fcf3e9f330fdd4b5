-- ===== src/Metrics.antt =====
-- src/probes/prometheus.rs: the metrics and their endpoints.
-- The metrics belong to the crate `prometheus`. The model keeps, in order, the calls that the code
-- makes on them; `Counters` is what the crate documents about a vector of counters.
pub mod Endpoint
pub mod Requests
pub mod Failures
use probes.Prelude.{ℕ, suc, ◌+◌, ◌≡◌, List, [], ◌∷◌, if◌then◌else◌, Bool, true, false, ◌&&◌}
use probes.Prelude.Bytes.{bytes_eq}
use probes.Prelude.Text.{Text}

-- A call on a metric, with the label values in the metric's order. `cluster_name` and `socket` come
-- first; then `status` and `type`, or `type` alone.
pub data MetricCall : Type 0 where
  inc_number_of_requests : Text → Text → Text → Text → MetricCall
  remove_number_of_requests : Text → Text → Text → Text → MetricCall
  -- the observed time is in nanoseconds
  observe_response_time : Text → Text → Text → ℕ → MetricCall
  remove_response_time : Text → Text → Text → MetricCall
  inc_failure_probe : Text → Text → MetricCall
  remove_failure_probe : Text → Text → MetricCall
  inc_failure_services_discovery : MetricCall

-- Equality of rows of label values.
unfoldable pub labels_eq : List Text → List Text → Bool
labels_eq [] [] = true
labels_eq [] (m ∷ ms) = false
labels_eq (l ∷ ls) [] = false
labels_eq (l ∷ ls) (m ∷ ms) = bytes_eq l m && labels_eq ls ms

-- A vector of series of the crate: recording touches the series with these labels, removing takes it
-- away, and a series that is not there counts as 0. `count` is the value of a counter, and the number of
-- observations of a histogram.
pub record SeriesVec : Type 1 where
  pub Vec : Type 0
  pub count : Vec → List Text → ℕ
  pub record_one : List Text → Vec → Vec
  pub remove_label_values : List Text → Vec → Vec
  pub count-record_one :
      (ls ms : List Text) (v : Vec)
      → count (record_one ls v) ms ≡ (if labels_eq ls ms then suc (count v ms) else count v ms)
  pub count-remove :
      (ls ms : List Text) (v : Vec)
      → count (remove_label_values ls v) ms ≡ (if labels_eq ls ms then 0 else count v ms)
