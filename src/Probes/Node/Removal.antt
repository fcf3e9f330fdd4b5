-- ===== src/Probes/Node/Removal.antt =====
-- The request counters after a node of src/probes/mod.rs has been stopped.
use probes.Prelude.{
  ℕ, ◌≡◌, ◌≢◌, ◌⊎◌, some, refl, sym, subst, ◌∙◌, inl, inr, List, [], ◌∷◌, ◌++◌, All, All-In, In,
  Bool-cases, arith,
}
use probes.Prelude.Text.{Text}
use probes.Metrics.{MetricCall, remove_number_of_requests, labels_eq, SeriesVec}
use probes.Memcached.Cursor.{Buf}
use probes.Probes.Node.{ProbeNode, World, Task, finished, stop, stop_type, run, begin}
use probes.Memcached.Client.{status_code}
use probes.Probes.Node.Cleanup.{IsType, request-In, Covered, request, time, failure}
use probes.Probes.Node.Tidy.{Tidy, run-begin-Tidy}
use probes.Metrics.Requests.{Row, labels}
use probes.Probes.Node.Series.{
  IsRemoval, same_removal, requests_after, replay, replay-append, replay_removes, replay_keeps,
}

-- `stop` of this node removes the row.
abbrev pub IsRemoved : ProbeNode → Row → Type 0
IsRemoved n r = In (remove_number_of_requests r.cluster_name r.socket r.status r.cmd_type) (stop n)

stop-IsRemoval : (n : ProbeNode) → All IsRemoval (stop n)
unfolding stop stop_type
stop-IsRemoval n = omega arith

-- A task that has finished called `stop` last.
finished_calls :
    (n : ProbeNode) (t : Task)
    → Tidy n t
    → t.phase ≡ finished
    → (front : List MetricCall) × All (Covered n) front × (t.calls ≡ front ++ stop n)
finished_calls n t h done = rw done at h.tidy

-- A row of another cluster or another socket.
abbrev pub IsForeign : ProbeNode → Row → Type 0
IsForeign n r = (r.cluster_name ≢ n.cluster_name) ⊎ (r.socket ≢ n.socket)

-- The labels of a removed row begin with the node's.
abbrev IsOwn : ProbeNode → MetricCall → Type 0
IsOwn n (remove_number_of_requests a b c d) = (a ≡ n.cluster_name) × (b ≡ n.socket)
IsOwn n _ = Unit {0}

stop-IsOwn : (n : ProbeNode) → All (IsOwn n) (stop n)
unfolding stop stop_type
stop-IsOwn n = ground arith

IsForeign-stays : (n : ProbeNode) (r : Row) → IsForeign n r → ¬ IsRemoved n r
IsForeign-stays n r foreign i =
    let (same_cluster, same_socket) = All-In (IsOwn n) (stop n) (stop-IsOwn n) i in
    elim foreign [ inl other ↦ other same_cluster | inr other ↦ other same_socket ]

module _ (vec : SeriesVec) where
  open vec use {Vec, count, record_one, remove_label_values, count-record_one, count-remove}

  Covered-keeps :
      (n : ProbeNode) (call : MetricCall) (r : Row) (v : Vec)
      → Covered n call
      → ¬ IsRemoved n r
      → count (requests_after vec call v) (labels r) ≡ count v (labels r)
  unfolding requests_after
  Covered-keeps n call r v (request status t e i) out =
      let ls : List Text = n.cluster_name ∷ n.socket ∷ status ∷ t ∷ [] in
      rw (e, requests_after)
        (elim (Bool-cases (labels_eq ls (labels r))) [
          | inl hit ↦ absurd (
              out (
                subst (λ x. In x (stop n))
                  (sym (same_removal n.cluster_name n.socket status t r hit)) i))
          | inr miss ↦ count-record_one ls (labels r) v ∙ rw miss
        ])
  Covered-keeps n call r v (time t nanos e i) out = rw (e, requests_after)
  Covered-keeps n call r v (failure e i) out = rw (e, requests_after)

  replay-Covered_keeps :
      (n : ProbeNode) (calls : List MetricCall) (r : Row) (v : Vec)
      → All (Covered n) calls
      → ¬ IsRemoved n r
      → count (replay vec calls v) (labels r) ≡ count v (labels r)
  unfolding replay
  replay-Covered_keeps n [] r v h out = refl
  replay-Covered_keeps n (x ∷ xs) r v h out =
      replay-Covered_keeps n xs r (requests_after vec x v) h.1 out ∙ Covered-keeps n x r v h.0 out

  -- A tidy task that has finished leaves no count of its own requests.
  pub Tidy-removed :
      (n : ProbeNode) (x : Task) (v : Vec) (code : ℕ) (status t : Text)
      → Tidy n x
      → x.phase ≡ finished
      → status_code code ≡ some status
      → IsType t
      → count (replay vec x.calls v) (n.cluster_name ∷ n.socket ∷ status ∷ t ∷ []) ≡ 0
  Tidy-removed n x v code status t tidy done known kind =
      let (front, covered, e) = finished_calls n x tidy done in
      let r : Row = record {
        cluster_name = n.cluster_name;
        socket = n.socket;
        status = status;
        cmd_type = t;
      } in
      rw (e, replay-append vec front (stop n) v)
        (replay_removes vec (stop n) r (replay vec front v) (stop-IsRemoval n)
          (request-In n t code status kind known))

  -- Once the task of a node has finished, its own counts of requests are gone: whatever was recorded
  -- before, the row of its cluster and socket counts 0 for every status of the table, for set and get.
  pub finished-removed :
      (src : Buf) (w : World) (n : ProbeNode) (k : ℕ) (v : Vec) (code : ℕ) (status t : Text)
      → (run src w k (begin n)).phase ≡ finished
      → status_code code ≡ some status
      → IsType t
      → count
          (replay vec (run src w k (begin n)).calls v)
          (n.cluster_name ∷ n.socket ∷ status ∷ t ∷ [])
        ≡ 0
  finished-removed src w n k v code status t =
      Tidy-removed n (run src w k (begin n)) v code status t (run-begin-Tidy src w n k)

  -- Once the task of a node has finished, every row of another cluster or another socket counts what it
  -- did before the task began.
  pub finished-kept :
      (src : Buf) (w : World) (n : ProbeNode) (k : ℕ) (v : Vec) (r : Row)
      → (run src w k (begin n)).phase ≡ finished
      → IsForeign n r
      → count (replay vec (run src w k (begin n)).calls v) (labels r) ≡ count v (labels r)
  finished-kept src w n k v r done foreign =
      let (front, covered, e) =
        finished_calls n (run src w k (begin n)) (run-begin-Tidy src w n k) done in
      let out : ¬ IsRemoved n r = IsForeign-stays n r foreign in
      rw (e, replay-append vec front (stop n) v)
        (replay_keeps vec (stop n) r (replay vec front v) (stop-IsRemoval n) out
          ∙ replay-Covered_keeps n front r v covered out)
