-- ===== src/Probes/Node/Series.antt =====
-- What calls on the metrics leave in the request counters: src/probes/prometheus.rs.
use probes.Prelude.{
  ◌+◌, ◌≡◌, refl, ◌∙◌, inl, inr, List, [], ◌∷◌, ◌++◌, All, In, true, Bool-cases, arith,
}
use probes.Prelude.Bytes.{bytes_eq→eq, bytes_eq_refl}
use probes.Prelude.Text.{Text}
use probes.Metrics.{
  MetricCall, inc_number_of_requests, remove_number_of_requests, observe_response_time,
  remove_response_time, inc_failure_probe, remove_failure_probe, inc_failure_services_discovery,
  labels_eq, SeriesVec,
}
use probes.Metrics.Requests.{Row, labels, requests_in, tally}

labels_eq→eq : (ls ms : List Text) → labels_eq ls ms ≡ true → ls ≡ ms
unfolding labels_eq
labels_eq→eq [] [] h = refl
labels_eq→eq [] (m ∷ ms) h = cc
labels_eq→eq (l ∷ ls) [] h = cc
labels_eq→eq (l ∷ ls) (m ∷ ms) h = ground (arith, bytes_eq→eq l m, labels_eq→eq ls ms)

labels_eq_refl : (ls : List Text) → labels_eq ls ls ≡ true
unfolding labels_eq
labels_eq_refl [] = refl
labels_eq_refl (l ∷ ls) = rw (bytes_eq_refl l, labels_eq_refl ls)

-- A call that takes no count.
abbrev pub IsRemoval : MetricCall → Type 0
IsRemoval (inc_number_of_requests a b c d) = ⊥
IsRemoval _ = Unit {0}

-- A call that removes no count.
abbrev pub IsKeeping : MetricCall → Type 0
IsKeeping (remove_number_of_requests a b c d) = ⊥
IsKeeping _ = Unit {0}

pub same_removal :
    (a b c d : Text) (r : Row)
    → labels_eq (a ∷ b ∷ c ∷ d ∷ []) (labels r) ≡ true
    → remove_number_of_requests r.cluster_name r.socket r.status r.cmd_type
      ≡ remove_number_of_requests a b c d
same_removal a b c d r h = let e = labels_eq→eq (a ∷ b ∷ c ∷ d ∷ []) (labels r) h in cc

module _ (vec : SeriesVec) where
  open vec use {Vec, count, record_one, remove_label_values, count-record_one, count-remove}

  -- What a call does to `NUMBER_OF_REQUESTS`.
  unfoldable pub requests_after : MetricCall → Vec → Vec
  requests_after (inc_number_of_requests a b c d) v = record_one (a ∷ b ∷ c ∷ d ∷ []) v
  requests_after (remove_number_of_requests a b c d) v = remove_label_values (a ∷ b ∷ c ∷ d ∷ []) v
  requests_after (observe_response_time a b c x) v = v
  requests_after (remove_response_time a b c) v = v
  requests_after (inc_failure_probe a b) v = v
  requests_after (remove_failure_probe a b) v = v
  requests_after inc_failure_services_discovery v = v

  unfoldable pub replay : List MetricCall → Vec → Vec
  unfolding requests_after
  replay [] v = v
  replay (call ∷ calls) v = replay calls (requests_after call v)

  pub replay-append :
      (xs ys : List MetricCall) (v : Vec) → replay (xs ++ ys) v ≡ replay ys (replay xs v)
  unfolding replay
  replay-append [] ys v = refl
  replay-append (x ∷ xs) ys v = replay-append xs ys (requests_after x v)

  -- A removal never raises a count of 0.
  stays_zero :
      (call : MetricCall) (r : Row) (v : Vec)
      → IsRemoval call
      → count v (labels r) ≡ 0
      → count (requests_after call v) (labels r) ≡ 0
  unfolding requests_after
  stays_zero (inc_number_of_requests a b c d) r v h z = absurd h
  stays_zero (remove_number_of_requests a b c d) r v h z =
      ground (arith, count-remove (a ∷ b ∷ c ∷ d ∷ []) (labels r) v)
  stays_zero (observe_response_time a b c x) r v h z = z
  stays_zero (remove_response_time a b c) r v h z = z
  stays_zero (inc_failure_probe a b) r v h z = z
  stays_zero (remove_failure_probe a b) r v h z = z
  stays_zero inc_failure_services_discovery r v h z = z

  replay_stays_zero :
      (calls : List MetricCall) (r : Row) (v : Vec)
      → All IsRemoval calls
      → count v (labels r) ≡ 0
      → count (replay calls v) (labels r) ≡ 0
  unfolding replay
  replay_stays_zero [] r v h z = z
  replay_stays_zero (x ∷ xs) r v h z =
      replay_stays_zero xs r (requests_after x v) h.1 (stays_zero x r v h.0 z)

  pub replay_removes :
      (calls : List MetricCall) (r : Row) (v : Vec)
      → All IsRemoval calls
      → In (remove_number_of_requests r.cluster_name r.socket r.status r.cmd_type) calls
      → count (replay calls v) (labels r) ≡ 0
  unfolding replay
  replay_removes [] r v h i = absurd i
  replay_removes (x ∷ xs) r v h (inl e) = replay_stays_zero xs r (requests_after x v) h.1 (
      rw (← e, requests_after)
        (count-remove (labels r) (labels r) v ∙ rw (labels_eq_refl (labels r))))
  replay_removes (x ∷ xs) r v h (inr i) = replay_removes xs r (requests_after x v) h.1 i

  pub replay_keeps :
      (calls : List MetricCall) (r : Row) (v : Vec)
      → All IsRemoval calls
      → ¬ In (remove_number_of_requests r.cluster_name r.socket r.status r.cmd_type) calls
      → count (replay calls v) (labels r) ≡ count v (labels r)
  unfolding replay requests_after
  replay_keeps [] r v h out = refl
  replay_keeps (inc_number_of_requests a b c d ∷ xs) r v h out = absurd h.0
  replay_keeps (remove_number_of_requests a b c d ∷ xs) r v h out =
      replay_keeps xs r (remove_label_values (a ∷ b ∷ c ∷ d ∷ []) v) h.1 (λ i. out (inr i))
      ∙ elim (Bool-cases (labels_eq (a ∷ b ∷ c ∷ d ∷ []) (labels r))) [
        | inl hit ↦ absurd (out (inl (same_removal a b c d r hit)))
        | inr miss ↦ count-remove (a ∷ b ∷ c ∷ d ∷ []) (labels r) v ∙ rw miss
      ]
  replay_keeps (observe_response_time a b c x ∷ xs) r v h out =
      replay_keeps xs r v h.1 (λ i. out (inr i))
  replay_keeps (remove_response_time a b c ∷ xs) r v h out =
      replay_keeps xs r v h.1 (λ i. out (inr i))
  replay_keeps (inc_failure_probe a b ∷ xs) r v h out = replay_keeps xs r v h.1 (λ i. out (inr i))
  replay_keeps (remove_failure_probe a b ∷ xs) r v h out =
      replay_keeps xs r v h.1 (λ i. out (inr i))
  replay_keeps (inc_failure_services_discovery ∷ xs) r v h out =
      replay_keeps xs r v h.1 (λ i. out (inr i))

  -- Calls that remove nothing raise the count of a row by as often as they count in it.
  pub replay-tally :
      (calls : List MetricCall) (r : Row) (v : Vec)
      → All IsKeeping calls
      → count (replay calls v) (labels r) ≡ count v (labels r) + tally r (requests_in calls)
  unfolding replay requests_after requests_in tally
  replay-tally [] r v h = omega arith
  replay-tally (inc_number_of_requests a b c d ∷ xs) r v h =
      replay-tally xs r (record_one (a ∷ b ∷ c ∷ d ∷ []) v) h.1
      ∙ elim (Bool-cases (labels_eq (a ∷ b ∷ c ∷ d ∷ []) (labels r))) [
        | inl hit ↦ rw (count-record_one (a ∷ b ∷ c ∷ d ∷ []) (labels r) v, hit) (omega arith)
        | inr miss ↦ rw (count-record_one (a ∷ b ∷ c ∷ d ∷ []) (labels r) v, miss) refl
      ]
  replay-tally (remove_number_of_requests a b c d ∷ xs) r v h = absurd h.0
  replay-tally (observe_response_time a b c x ∷ xs) r v h = replay-tally xs r v h.1
  replay-tally (remove_response_time a b c ∷ xs) r v h = replay-tally xs r v h.1
  replay-tally (inc_failure_probe a b ∷ xs) r v h = replay-tally xs r v h.1
  replay-tally (remove_failure_probe a b ∷ xs) r v h = replay-tally xs r v h.1
  replay-tally (inc_failure_services_discovery ∷ xs) r v h = replay-tally xs r v h.1
