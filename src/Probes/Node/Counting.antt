-- ===== src/Probes/Node/Counting.antt =====
-- What the task of src/probes/mod.rs counts, against the answers of its node.
use probes.Prelude.{
  ℕ, zero, suc, ◌≡◌, ◌≢◌, refl, ◌∙◌, sym, subst, List, [], ◌∷◌, ◌++◌, append-nil, Result, ok, err,
}
use probes.Prelude.Text.{Text}
use probes.Metrics.{MetricCall}
use probes.Metrics.Requests.{requests_in, requests_in-append}
use probes.Memcached.Cursor.{Buf}
use probes.Memcached.Connection
use probes.Memcached.Connection.{IoError, MemcachedClientError, Poll, ready, pending}
use probes.Memcached.Client.{Client, connect, probe}
use probes.Memcached.Client.Service.{IsIdle}
use probes.Memcached.Client.Verdict.{answers, rows_of, AreKnown, probe-Told}
use probes.Probes.Node.{
  ProbeNode, TryRecv, message, closed, empty, World, Phase, connecting, probing, finished, crashed,
  hanging, Task, stop, stop_type, manage_failure, finish, after_failure, on_failure, on_connect,
  on_result, on_probe, on_poll, connect_poll, turn, step, run, begin,
}
use probes.Probes.Node.Cleanup.{IsFor, SameNode-IsFor}
use probes.Probes.Node.Steady.{IsPolite}

rows_of-append :
    (cluster_name socket : Text) (xs ys : List (Text × Text))
    → rows_of cluster_name socket (xs ++ ys)
      ≡ rows_of cluster_name socket xs ++ rows_of cluster_name socket ys
unfolding rows_of
rows_of-append cluster_name socket [] ys = refl
rows_of-append cluster_name socket (x ∷ xs) ys = rw (rows_of-append cluster_name socket xs ys) refl

-- Where one list ends with no request more.
silent : (xs ys : List MetricCall) → requests_in ys ≡ [] → requests_in (xs ++ ys) ≡ requests_in xs
silent xs ys e = requests_in-append xs ys ∙ rw e (append-nil (requests_in xs))

stop-silent : (n : ProbeNode) → requests_in (stop n) ≡ []
unfolding stop stop_type requests_in
stop-silent n = refl

manage_failure-silent : (n : ProbeNode) → requests_in (manage_failure n) ≡ []
unfolding manage_failure requests_in
manage_failure-silent n = refl

-- What the answers to the first probes name, in order.
unfoldable pub answered_upto : (w : World) → IsPolite w → ℕ → List (Text × Text)
answered_upto w polite zero = []
answered_upto w polite (suc k) = answered_upto w polite k ++ answers (polite k)

module _ (src : Buf) (w : World) (polite : IsPolite w) (n : ProbeNode) where
  -- A task that probes has nothing unread on a connection for its node, and none has panicked.
  abbrev CountedPhase : Phase → Type 0
  CountedPhase (probing c) = IsIdle c × IsFor n c
  CountedPhase crashed = ⊥
  CountedPhase _ = Unit {0}

  -- The calls count what the answers so far name, and nothing else.
  abbrev IsCount : List MetricCall → ℕ → Type 0
  IsCount calls k = requests_in calls ≡ rows_of n.cluster_name n.socket (answered_upto w polite k)

  pub record Counted (t : Task) : Type 0 where
    pub same_node : t.node ≡ n
    pub phase : CountedPhase t.phase
    pub requests : IsCount t.calls t.probed

  after_failure-Counted :
      (t : Task) (r : TryRecv) → t.node ≡ n → IsCount t.calls t.probed → Counted (after_failure r t)
  unfolding after_failure finish
  after_failure-Counted t message e q = record {
    same_node = e;
    phase = tt;
    requests = silent t.calls (stop t.node) (stop-silent t.node) ∙ q;
  }
  after_failure-Counted t closed e q = record {
    same_node = e;
    phase = tt;
    requests = silent t.calls (stop t.node) (stop-silent t.node) ∙ q;
  }
  after_failure-Counted t empty e q = record { same_node = e; phase = tt; requests = q }

  on_failure-Counted : (t : Task) → t.node ≡ n → IsCount t.calls t.probed → Counted (on_failure w t)
  unfolding on_failure
  on_failure-Counted t e q =
      after_failure-Counted (record t { calls = t.calls ++ manage_failure t.node })
        (w.polls t.polled) e
        (silent t.calls (manage_failure t.node) (manage_failure-silent t.node) ∙ q)

  on_connect-Counted :
      (t : Task) (p : Poll (Result (Unit {0}) IoError))
      → t.node ≡ n
      → IsCount t.calls t.probed
      → Counted (on_connect w t (connect_poll t.node p))
  unfolding on_connect connect_poll connect Connection.new
  on_connect-Counted t (ready (ok _)) e q = record {
    same_node = e;
    phase = (
      record { no_bytes = refl; none_unread = refl },
      record { cluster = rw e refl; address = rw e refl },
    );
    requests = q;
  }
  on_connect-Counted t (ready (err x)) e q =
      on_failure-Counted (record t { connected = suc t.connected }) e q
  on_connect-Counted t pending e q = record { same_node = e; phase = tt; requests = q }

  on_result-Counted :
      (t : Task) (c : Client) (o : Result (Unit {0}) MemcachedClientError)
      → t.node ≡ n
      → (o ≡ ok tt → IsIdle c)
      → IsFor n c
      → IsCount t.calls t.probed
      → Counted (on_result w t c o)
  unfolding on_result
  on_result-Counted t c (ok _) e idle f q = record {
    same_node = e;
    phase = (idle refl, f);
    requests = q;
  }
  on_result-Counted t c (err x) e idle f q = on_failure-Counted t e q

  module _ (known : (i : ℕ) → AreKnown (polite i)) where
    on_probe-Counted :
        (t : Task) (c : Client)
        → t.node ≡ n
        → IsIdle c
        → IsFor n c
        → IsCount t.calls t.probed
        → Counted (on_probe w t (probe src c (w.probes t.probed)))
    unfolding on_probe answered_upto
    on_probe-Counted t c e idle f q =
        let (r, ran, told) =
          probe-Told src c (w.probes t.probed) idle (polite t.probed) (known t.probed) in
        rw ran (
          on_result-Counted (record t { probed = suc t.probed; calls = t.calls ++ r.calls })
            r.client r.result e told.idle (SameNode-IsFor n c r.client f told.same)
            (requests_in-append t.calls r.calls
              ∙ rw (q, told.requests, f.cluster, f.address)
                  (sym (
                    rows_of-append n.cluster_name n.socket (answered_upto w polite t.probed)
                      (answers (polite t.probed))))))

    on_poll-Counted :
        (t : Task) (c : Client) (r : TryRecv)
        → t.node ≡ n
        → IsIdle c
        → IsFor n c
        → IsCount t.calls t.probed
        → Counted (on_poll src w t c r)
    unfolding on_poll finish
    on_poll-Counted t c message e idle f q = record {
      same_node = e;
      phase = tt;
      requests = silent t.calls (stop t.node) (stop-silent t.node) ∙ q;
    }
    on_poll-Counted t c closed e idle f q = record {
      same_node = e;
      phase = tt;
      requests = silent t.calls (stop t.node) (stop-silent t.node) ∙ q;
    }
    on_poll-Counted t c empty e idle f q =
        on_probe-Counted (record t { polled = suc t.polled }) c e idle f q

    turn-Counted :
        (t : Task) (p : Phase)
        → t.phase ≡ p
        → t.node ≡ n
        → CountedPhase p
        → IsCount t.calls t.probed
        → Counted (turn src w t p)
    unfolding turn
    turn-Counted t connecting s e h q = on_connect-Counted t (w.connects t.connected) e q
    turn-Counted t (probing c) s e (idle, f) q = on_poll-Counted t c (w.polls t.polled) e idle f q
    turn-Counted t finished s e h q = record { same_node = e; phase = rw s h; requests = q }
    turn-Counted t crashed s e h q = absurd h
    turn-Counted t hanging s e h q = record { same_node = e; phase = rw s h; requests = q }

    run-Counted : (k : ℕ) (t : Task) → Counted t → Counted (run src w k t)
    unfolding run step
    run-Counted zero t h = h
    run-Counted (suc k) t h =
        run-Counted k (turn src w t t.phase)
          (turn-Counted t t.phase refl h.same_node h.phase h.requests)

    begin-Counted : Counted (begin n)
    unfolding begin answered_upto requests_in rows_of
    begin-Counted = record { same_node = refl; phase = tt; requests = refl }

    -- What a task counts is what its node has answered: after any number of turns from the start, against a node
    -- that never sends more than one response to a request and none with a status out of the table, the task
    -- has not panicked, and the requests that it has counted are, in order, the answers to the probes it has
    -- made: the status of each set that was answered, and behind it that of the get where that was answered.
    pub run-answers :
        (k : ℕ)
        → ((run src w k (begin n)).phase ≢ crashed)
          × (requests_in (run src w k (begin n)).calls
              ≡ rows_of n.cluster_name n.socket
                  (answered_upto w polite (run src w k (begin n)).probed))
    run-answers k =
        let told = run-Counted k (begin n) begin-Counted in
        (λ e. subst CountedPhase e told.phase, told.requests)
