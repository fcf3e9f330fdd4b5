-- ===== src/Metrics/Requests.antt =====
-- The rows of `NUMBER_OF_REQUESTS` of src/probes/prometheus.rs, and the calls that count in them.
use probes.Prelude.{ℕ, suc, ◌≡◌, refl, List, [], ◌∷◌, ◌++◌, if◌then◌else◌}
use probes.Prelude.Text.{Text}
use probes.Metrics.{
  MetricCall, inc_number_of_requests, remove_number_of_requests, observe_response_time,
  remove_response_time, inc_failure_probe, remove_failure_probe, inc_failure_services_discovery,
  labels_eq,
}

-- A row of label values of `NUMBER_OF_REQUESTS`.
pub record Row : Type 0 where
  pub cluster_name : Text
  pub socket : Text
  pub status : Text
  pub cmd_type : Text

abbrev pub labels : Row → List Text
labels r = r.cluster_name ∷ r.socket ∷ r.status ∷ r.cmd_type ∷ []

-- How often a row stands in a list.
unfoldable pub tally : Row → List Row → ℕ
tally r [] = 0
tally r (x ∷ xs) =
    let rest = tally r xs in if labels_eq (labels x) (labels r) then suc rest else rest

-- The row that a call counts in, before the rows of the rest.
abbrev pub row_then : MetricCall → List Row → List Row
row_then (inc_number_of_requests a b c d) rows =
    record { cluster_name = a; socket = b; status = c; cmd_type = d } ∷ rows
row_then _ rows = rows

-- The rows that the calls count in, one by one.
unfoldable pub requests_in : List MetricCall → List Row
requests_in [] = []
requests_in (call ∷ calls) = row_then call (requests_in calls)

pub requests_in-append :
    (xs ys : List MetricCall) → requests_in (xs ++ ys) ≡ requests_in xs ++ requests_in ys
unfolding requests_in
requests_in-append [] ys = refl
requests_in-append (inc_number_of_requests a b c d ∷ xs) ys = rw (requests_in-append xs ys) refl
requests_in-append (remove_number_of_requests a b c d ∷ xs) ys = requests_in-append xs ys
requests_in-append (observe_response_time a b c x ∷ xs) ys = requests_in-append xs ys
requests_in-append (remove_response_time a b c ∷ xs) ys = requests_in-append xs ys
requests_in-append (inc_failure_probe a b ∷ xs) ys = requests_in-append xs ys
requests_in-append (remove_failure_probe a b ∷ xs) ys = requests_in-append xs ys
requests_in-append (inc_failure_services_discovery ∷ xs) ys = requests_in-append xs ys
