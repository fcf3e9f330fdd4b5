-- ===== src/Metrics/Failures.antt =====
-- The calls that count in `FAILURE_PROBE` of src/probes/prometheus.rs, and what calls leave in it.
use probes.Prelude.{ℕ, suc, ◌+◌, ◌≡◌, ◌∙◌, List, [], ◌∷◌, ◌++◌, All, arith}
use probes.Prelude.Bytes.{bytes_eq_refl}
use probes.Prelude.Text.{Text}
use probes.Metrics.{
  MetricCall, inc_number_of_requests, remove_number_of_requests, observe_response_time,
  remove_response_time, inc_failure_probe, remove_failure_probe, inc_failure_services_discovery,
  labels_eq, SeriesVec,
}

-- How many of the calls count a failure of a probe.
unfoldable pub failures_in : List MetricCall → ℕ
failures_in [] = 0
failures_in (inc_failure_probe a b ∷ calls) = suc (failures_in calls)
failures_in (_ ∷ calls) = failures_in calls

pub failures_in-append :
    (xs ys : List MetricCall) → failures_in (xs ++ ys) ≡ failures_in xs + failures_in ys
unfolding failures_in
failures_in-append [] ys = omega arith
failures_in-append (inc_number_of_requests a b c d ∷ xs) ys = failures_in-append xs ys
failures_in-append (remove_number_of_requests a b c d ∷ xs) ys = failures_in-append xs ys
failures_in-append (observe_response_time a b c x ∷ xs) ys = failures_in-append xs ys
failures_in-append (remove_response_time a b c ∷ xs) ys = failures_in-append xs ys
failures_in-append (inc_failure_probe a b ∷ xs) ys = omega (arith, failures_in-append xs ys)
failures_in-append (remove_failure_probe a b ∷ xs) ys = failures_in-append xs ys
failures_in-append (inc_failure_services_discovery ∷ xs) ys = failures_in-append xs ys

-- A call that, where it is on `FAILURE_PROBE`, counts for this cluster and socket.
abbrev pub FailsFor : Text → Text → MetricCall → Type 0
FailsFor cluster_name socket (inc_failure_probe a b) = (a ≡ cluster_name) × (b ≡ socket)
FailsFor cluster_name socket (remove_failure_probe a b) = ⊥
FailsFor cluster_name socket _ = Unit {0}

module _ (vec : SeriesVec) where
  open vec use {Vec, count, record_one, remove_label_values, count-record_one}

  -- What a call does to `FAILURE_PROBE`.
  unfoldable pub failures_after : MetricCall → Vec → Vec
  failures_after (inc_failure_probe a b) v = record_one (a ∷ b ∷ []) v
  failures_after (remove_failure_probe a b) v = remove_label_values (a ∷ b ∷ []) v
  failures_after _ v = v

  unfoldable pub replay_failures : List MetricCall → Vec → Vec
  unfolding failures_after
  replay_failures [] v = v
  replay_failures (call ∷ calls) v = replay_failures calls (failures_after call v)

  -- Calls that are all for one node raise its count by as many failures as they are.
  pub replay_failures-failures_in :
      (cluster_name socket : Text) (calls : List MetricCall) (v : Vec)
      → All (FailsFor cluster_name socket) calls
      → count (replay_failures calls v) (cluster_name ∷ socket ∷ [])
        ≡ count v (cluster_name ∷ socket ∷ []) + failures_in calls
  unfolding replay_failures failures_in labels_eq
  replay_failures-failures_in g s [] v h = omega arith
  replay_failures-failures_in g s (inc_number_of_requests a b c d ∷ xs) v h =
      replay_failures-failures_in g s xs v h.1
  replay_failures-failures_in g s (remove_number_of_requests a b c d ∷ xs) v h =
      replay_failures-failures_in g s xs v h.1
  replay_failures-failures_in g s (observe_response_time a b c x ∷ xs) v h =
      replay_failures-failures_in g s xs v h.1
  replay_failures-failures_in g s (remove_response_time a b c ∷ xs) v h =
      replay_failures-failures_in g s xs v h.1
  replay_failures-failures_in g s (inc_failure_probe a b ∷ xs) v h =
      replay_failures-failures_in g s xs (record_one (a ∷ b ∷ []) v) h.1
      ∙ rw
          (
            count-record_one (a ∷ b ∷ []) (g ∷ s ∷ []) v,
            h.0.0,
            h.0.1,
            bytes_eq_refl g,
            bytes_eq_refl s,
          )
          (omega arith)
  replay_failures-failures_in g s (remove_failure_probe a b ∷ xs) v h = absurd h.0
  replay_failures-failures_in g s (inc_failure_services_discovery ∷ xs) v h =
      replay_failures-failures_in g s xs v h.1
