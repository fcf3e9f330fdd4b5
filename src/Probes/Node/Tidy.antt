-- ===== src/Probes/Node/Tidy.antt =====
-- The invariant of the task of src/probes/mod.rs, turn by turn, and what is left in the metrics when it
-- has finished.
use probes.Prelude.{
  ℕ, zero, suc, ◌≡◌, refl, inl, List, ◌++◌, All, All-append, Result, ok, err, Outcome, returns,
  panics,
}
use probes.Metrics.{MetricCall}
use probes.Memcached.Cursor.{Buf}
use probes.Memcached.Connection.{IoError, MemcachedClientError, Poll, ready, pending}
use probes.Memcached.Client.{Client, ProbeScript, Ran, connect, probe}
use probes.Memcached.Client.Accounting.{probe-Accounts}
use probes.Probes.Node.{
  ProbeNode, TryRecv, message, closed, empty, World, Phase, connecting, probing, finished, crashed,
  hanging, Task, stop, manage_failure, finish, after_failure, on_failure, on_connect, on_result,
  on_probe, on_poll, connect_poll, turn, step, run, begin,
}
use probes.Probes.Node.Cleanup.{Covered, failure, IsFor, probe-Covered}

-- What is so in each phase: all recorded calls are covered, `stop` has been called last if the task has
-- finished, and the client belongs to the node.
abbrev pub TidyPhase : ProbeNode → Phase → List MetricCall → Type 0
TidyPhase n (probing c) calls = All (Covered n) calls × IsFor n c
TidyPhase n finished calls =
    (front : List MetricCall) × All (Covered n) front × (calls ≡ front ++ stop n)
TidyPhase n _ calls = All (Covered n) calls

pub record Tidy (n : ProbeNode) (t : Task) : Type 0 where
  pub same_node : t.node ≡ n
  pub tidy : TidyPhase n t.phase t.calls

module _ (src : Buf) (w : World) (n : ProbeNode) where
  finish-Tidy : (t : Task) → t.node ≡ n → All (Covered n) t.calls → Tidy n (finish t)
  unfolding finish
  finish-Tidy t e a = record { same_node = e; tidy = (t.calls, a, rw e) }

  after_failure-Tidy :
      (t : Task) (r : TryRecv) → t.node ≡ n → All (Covered n) t.calls → Tidy n (after_failure r t)
  unfolding after_failure
  after_failure-Tidy t message e a = finish-Tidy t e a
  after_failure-Tidy t closed e a = finish-Tidy t e a
  after_failure-Tidy t empty e a = record { same_node = e; tidy = a }

  on_failure-Tidy : (t : Task) → t.node ≡ n → All (Covered n) t.calls → Tidy n (on_failure w t)
  unfolding on_failure manage_failure
  on_failure-Tidy t e a =
      after_failure-Tidy (record t { calls = t.calls ++ manage_failure t.node }) (w.polls t.polled)
        e
        (All-append (Covered n) t.calls (manage_failure t.node) a
          (rw e (failure refl (unfold stop in inl refl), tt)))

  on_connect-Tidy :
      (t : Task) (p : Poll (Result (Unit {0}) IoError))
      → t.node ≡ n
      → All (Covered n) t.calls
      → Tidy n (on_connect w t (connect_poll t.node p))
  unfolding on_connect connect_poll connect
  on_connect-Tidy t (ready (ok _)) e a = record {
    same_node = e;
    tidy = (a, record { cluster = rw e; address = rw e });
  }
  on_connect-Tidy t (ready (err x)) e a =
      on_failure-Tidy (record t { connected = suc t.connected }) e a
  on_connect-Tidy t pending e a = record { same_node = e; tidy = a }

  on_result-Tidy :
      (t : Task) (c : Client) (o : Result (Unit {0}) MemcachedClientError)
      → t.node ≡ n
      → All (Covered n) t.calls
      → IsFor n c
      → Tidy n (on_result w t c o)
  unfolding on_result
  on_result-Tidy t c (ok _) e a f = record { same_node = e; tidy = (a, f) }
  on_result-Tidy t c (err x) e a f = on_failure-Tidy t e a

  on_probe-Tidy :
      (t : Task) (c : Client) (script : ProbeScript)
      (o : Outcome (Ran (Result (Unit {0}) MemcachedClientError)))
      → probe src c script ≡ o
      → t.node ≡ n
      → All (Covered n) t.calls
      → IsFor n c
      → Tidy n (on_probe w t o)
  unfolding on_probe
  on_probe-Tidy t c script (returns r) did e a f =
      let (b, f') = probe-Covered src n c script r f (probe-Accounts src c script did) in
      on_result-Tidy (record t { probed = suc t.probed; calls = t.calls ++ r.calls }) r.client
        r.result e (All-append (Covered n) t.calls r.calls a b) f'
  on_probe-Tidy t c script panics did e a f = record { same_node = e; tidy = a }

  on_poll-Tidy :
      (t : Task) (c : Client) (r : TryRecv)
      → t.node ≡ n
      → All (Covered n) t.calls
      → IsFor n c
      → Tidy n (on_poll src w t c r)
  unfolding on_poll
  on_poll-Tidy t c message e a f = finish-Tidy t e a
  on_poll-Tidy t c closed e a f = finish-Tidy t e a
  on_poll-Tidy t c empty e a f =
      on_probe-Tidy (record t { polled = suc t.polled }) c (w.probes t.probed)
        (probe src c (w.probes t.probed)) refl e a f

  turn-Tidy :
      (t : Task) (p : Phase)
      → t.phase ≡ p
      → t.node ≡ n
      → TidyPhase n p t.calls
      → Tidy n (turn src w t p)
  unfolding turn
  turn-Tidy t connecting q e a = on_connect-Tidy t (w.connects t.connected) e a
  turn-Tidy t (probing c) q e (a, f) = on_poll-Tidy t c (w.polls t.polled) e a f
  turn-Tidy t finished q e a = record { same_node = e; tidy = rw q a }
  turn-Tidy t crashed q e a = record { same_node = e; tidy = rw q a }
  turn-Tidy t hanging q e a = record { same_node = e; tidy = rw q a }

  pub run-Tidy : (k : ℕ) (t : Task) → Tidy n t → Tidy n (run src w k t)
  unfolding run step
  run-Tidy zero t h = h
  run-Tidy (suc k) t h =
      run-Tidy k (turn src w t t.phase) (turn-Tidy t t.phase refl h.same_node h.tidy)

  -- After any number of turns from the start: every series that the task has touched is one that its
  -- `stop` removes, and where the task has finished, the last thing it did was to call `stop`.
  pub run-begin-Tidy : (k : ℕ) → Tidy n (run src w k (begin n))
  unfolding begin
  run-begin-Tidy k = run-Tidy k (begin n) (record { same_node = refl; tidy = tt })
