-- ===== src/Probes/Node/Counters.antt =====
-- The request counters of src/probes/prometheus.rs while a task of src/probes/mod.rs runs.
use probes.Prelude.{[], ◌∷◌, ℕ, ◌+◌, ◌≡◌, ◌≢◌, refl, ◌∙◌, ap, List, All, All-map}
use probes.Metrics.{MetricCall, SeriesVec}
use probes.Metrics.Requests.{Row, labels, tally}
use probes.Memcached.Cursor.{Buf}
use probes.Memcached.Client.Verdict.{rows_of, AreKnown}
use probes.Probes.Node.{
  ProbeNode, World, Phase, connecting, probing, finished, crashed, hanging, Task, run, begin,
}
use probes.Probes.Node.Cleanup.{Covered, request, time, failure}
use probes.Probes.Node.Counting.{answered_upto, run-answers}
use probes.Probes.Node.Series.{IsKeeping, replay, replay-tally}
use probes.Probes.Node.Steady.{IsPolite}
use probes.Probes.Node.Safe.{IsTame}
use probes.Probes.Node.Failures.{failed_connects, failed_probes, run-failures_in}
use probes.Metrics.Failures.{FailsFor, replay_failures, replay_failures-failures_in}
use probes.Probes.Node.Tidy.{TidyPhase, run-begin-Tidy}

module _ (n : ProbeNode) where
  Covered-IsKeeping : (call : MetricCall) → Covered n call → IsKeeping call
  Covered-IsKeeping call (request status t e i) = rw e tt
  Covered-IsKeeping call (time t nanos e i) = rw e tt
  Covered-IsKeeping call (failure e i) = rw e tt

  Covered-FailsFor : (call : MetricCall) → Covered n call → FailsFor n.cluster_name n.socket call
  Covered-FailsFor call (request status t e i) = rw e tt
  Covered-FailsFor call (time t nanos e i) = rw e tt
  Covered-FailsFor call (failure e i) = rw e (refl, refl)

  -- What holds of all that `stop` takes away again holds of all calls of a task that has not finished.
  TidyPhase-All :
      (P : MetricCall → Type 0)
      → ((call : MetricCall) → Covered n call → P call)
      → (p : Phase) (calls : List MetricCall) → p ≢ finished
      → TidyPhase n p calls
      → All P calls
  TidyPhase-All P f connecting calls h a = All-map (Covered n) P calls f a
  TidyPhase-All P f (probing c) calls h a = All-map (Covered n) P calls f a.0
  TidyPhase-All P f finished calls h a = absurd (h refl)
  TidyPhase-All P f crashed calls h a = All-map (Covered n) P calls f a
  TidyPhase-All P f hanging calls h a = All-map (Covered n) P calls f a

-- The request counters tell how often the node has answered: after any number of turns from the start, while the
-- task has not finished, and whatever they stood at before, each row has grown by as often as it is the row of
-- an answer to one of the probes made, under the labels of the node; against a node that never sends more
-- than one response to a request and none with a status out of the table.
pub run-counts :
    (src : Buf) (w : World) (polite : IsPolite w) (n : ProbeNode) (vec : SeriesVec) (v : vec.Vec)
    (k : ℕ) (r : Row)
    → ((i : ℕ) → AreKnown (polite i))
    → (run src w k (begin n)).phase ≢ finished
    → vec.count (replay vec (run src w k (begin n)).calls v) (labels r)
      ≡ vec.count v (labels r)
        + tally r (
            rows_of n.cluster_name n.socket (answered_upto w polite (run src w k (begin n)).probed))
run-counts src w polite n vec v k r known h =
    let t : Task = run src w k (begin n) in
    replay-tally vec t.calls r v (
      TidyPhase-All n IsKeeping (Covered-IsKeeping n) t.phase t.calls h
        (run-begin-Tidy src w n k).tidy)
    ∙ ap (λ rows. vec.count v (labels r) + tally r rows) (run-answers src w polite n known k).1

-- The failure counter tells how often the node has failed: after any number of turns from the start, while the
-- task has not finished, and whatever it stood at before, the counter of the node has grown by one for each
-- attempt to connect that was refused and one for each probe that was not answered twice, and by no more;
-- against a node that never sends more than one response to a request and none with a status out of the
-- table.
pub run-failures :
    (src : Buf) (w : World) (tame : IsTame w) (n : ProbeNode) (vec : SeriesVec) (v : vec.Vec)
    (k : ℕ)
    → (run src w k (begin n)).phase ≢ finished
    → vec.count
        (replay_failures vec (run src w k (begin n)).calls v)
        (n.cluster_name ∷ n.socket ∷ [])
      ≡ vec.count v (n.cluster_name ∷ n.socket ∷ [])
        + (failed_connects w (run src w k (begin n)).connected
            + failed_probes w tame (run src w k (begin n)).probed)
run-failures src w tame n vec v k h =
    let t : Task = run src w k (begin n) in
    replay_failures-failures_in vec n.cluster_name n.socket t.calls v (
      TidyPhase-All n (FailsFor n.cluster_name n.socket) (Covered-FailsFor n) t.phase t.calls h
        (run-begin-Tidy src w n k).tidy)
    ∙ ap (λ m. vec.count v (n.cluster_name ∷ n.socket ∷ []) + m) (run-failures_in src w tame n k)
