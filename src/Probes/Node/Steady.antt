-- ===== src/Probes/Node/Steady.antt =====
-- What failures leave for the later turns of the task of src/probes/mod.rs.
use probes.Prelude.{
  ℕ, zero, suc, ◌+◌, ◌≡◌, refl, ◌∙◌, subst, ap, List, [], ◌∷◌, ◌++◌, some, ltb, if◌then◌else◌,
  Result, ok, err, Outcome, returns, panics,
}
use probes.Prelude.Text.{Text, text}
use probes.Metrics.{MetricCall, inc_number_of_requests, observe_response_time}
use probes.Memcached.Cursor.{Buf}
use probes.Memcached.Header.Layout.{Wire}
use probes.Memcached.Connection
use probes.Memcached.Connection.{IoError, MemcachedClientError, Poll, ready, pending}
use probes.Memcached.Client.{Client, Ran, connect, probe, status_code}
use probes.Memcached.Client.Service.{
  Answers, IsIdle, after_request, set_command, get_command, probe_answered,
}
use probes.Memcached.Client.Polite.{PoliteProbe, IdleIfOk, probe-IdleIfOk}
use probes.Memcached.Client.Failing.{Returned}
use probes.Probes.Node.{
  ProbeNode, TryRecv, message, closed, empty, World, Phase, connecting, probing, finished, crashed,
  hanging, Task, finish, after_failure, on_failure, on_connect, on_result, on_probe, on_poll,
  connect_poll, turn, step, run, begin,
}
use probes.Probes.Node.Cleanup.{IsFor}
use probes.Probes.Node.Tidy.{Tidy, run-begin-Tidy}

-- A task that probes has nothing unread on its connection.
abbrev pub IdlePhase : Phase → Type 0
IdlePhase (probing c) = IsIdle c
IdlePhase _ = Unit

-- Each answer to the task is one response or less.
abbrev pub IsPolite : World → Type 0
IsPolite w = (i : ℕ) → PoliteProbe (w.probes i)

module _ (src : Buf) (w : World) (polite : IsPolite w) where
  after_failure-IdlePhase : (t : Task) (r : TryRecv) → IdlePhase (after_failure r t).phase
  unfolding after_failure finish
  after_failure-IdlePhase t message = tt
  after_failure-IdlePhase t closed = tt
  after_failure-IdlePhase t empty = tt

  on_failure-IdlePhase : (t : Task) → IdlePhase (on_failure w t).phase
  unfolding on_failure
  on_failure-IdlePhase t = after_failure-IdlePhase _ (w.polls t.polled)

  on_connect-IdlePhase :
      (t : Task) (p : Poll (Result (Unit {0}) IoError))
      → IdlePhase (on_connect w t (connect_poll t.node p)).phase
  unfolding on_connect connect_poll connect Connection.new
  on_connect-IdlePhase t (ready (ok _)) = record { no_bytes = refl; none_unread = refl }
  on_connect-IdlePhase t (ready (err x)) =
      on_failure-IdlePhase (record t { connected = suc t.connected })
  on_connect-IdlePhase t pending = tt

  on_result-IdlePhase :
      (t : Task) (c : Client) (o : Result (Unit {0}) MemcachedClientError)
      → (o ≡ ok tt → IsIdle c)
      → IdlePhase (on_result w t c o).phase
  unfolding on_result
  on_result-IdlePhase t c (ok _) h = h refl
  on_result-IdlePhase t c (err x) h = on_failure-IdlePhase t

  on_probe-IdlePhase :
      (t : Task) (o : Outcome (Ran (Result (Unit {0}) MemcachedClientError)))
      → Returned IdleIfOk o
      → IdlePhase (on_probe w t o).phase
  unfolding on_probe
  on_probe-IdlePhase t (returns r) h = on_result-IdlePhase _ r.client r.result h
  on_probe-IdlePhase t panics h = tt

  on_poll-IdlePhase :
      (t : Task) (c : Client) (r : TryRecv) → IsIdle c → IdlePhase (on_poll src w t c r).phase
  unfolding on_poll finish
  on_poll-IdlePhase t c message h = tt
  on_poll-IdlePhase t c closed h = tt
  on_poll-IdlePhase t c empty h =
      on_probe-IdlePhase _ (probe src c (w.probes t.probed))
        (probe-IdleIfOk src c (w.probes t.probed) h (polite t.probed))

  turn-IdlePhase :
      (t : Task) (p : Phase) → t.phase ≡ p → IdlePhase p → IdlePhase (turn src w t p).phase
  unfolding turn
  turn-IdlePhase t connecting e h = on_connect-IdlePhase t (w.connects t.connected)
  turn-IdlePhase t (probing c) e h = on_poll-IdlePhase t c (w.polls t.polled) h
  turn-IdlePhase t finished e h = rw e h
  turn-IdlePhase t crashed e h = rw e h
  turn-IdlePhase t hanging e h = rw e h

  pub step-IdlePhase : (t : Task) → IdlePhase t.phase → IdlePhase (step src w t).phase
  unfolding step
  step-IdlePhase t h = turn-IdlePhase t t.phase refl h

  run-IdlePhase : (k : ℕ) (t : Task) → IdlePhase t.phase → IdlePhase (run src w k t).phase
  unfolding run step
  run-IdlePhase zero t h = h
  run-IdlePhase (suc k) t h =
      run-IdlePhase k (turn src w t t.phase) (turn-IdlePhase t t.phase refl h)

-- The calls of a probe that is answered.
abbrev pub both_counted : ProbeNode → World → ℕ → Text → Text → List MetricCall
both_counted n w i status₁ status₂ =
    inc_number_of_requests n.cluster_name n.socket status₁ (text "set")
    ∷ observe_response_time n.cluster_name n.socket (text "set") (w.probes i).set_exchange.elapsed
    ∷ inc_number_of_requests n.cluster_name n.socket status₂ (text "get")
    ∷ observe_response_time n.cluster_name n.socket (text "get") (w.probes i).get_exchange.elapsed
    ∷ []

-- A turn whose probe succeeds.
step-probed :
    (src : Buf) (w : World) (t : Task) (c : Client)
    (r : Ran (Result (Unit {0}) MemcachedClientError))
    → t.phase ≡ probing c
    → w.polls t.polled ≡ empty
    → probe src c (w.probes t.probed) ≡ returns r
    → r.result ≡ ok tt
    → step src w t ≡ record t {
      phase = probing r.client;
      polled = suc t.polled;
      probed = suc t.probed;
      calls = t.calls ++ r.calls;
      slept =
          if ltb 0 t.node.interval_check_ms then t.slept + t.node.interval_check_ms else t.slept;
    }
unfolding step turn on_poll on_probe on_result
step-probed src w t c r is_probing quiet did good =
    ap (turn src w t) is_probing ∙ rw (quiet, did) (rw good refl)

run-IsFor :
    (src : Buf) (w : World) (n : ProbeNode) (k : ℕ) (t : Task) (c : Client)
    → run src w k (begin n) ≡ t
    → t.phase ≡ probing c
    → (t.node ≡ n) × IsFor n c
run-IsFor src w n k t c ran is_probing =
    let tidy : Tidy n t = subst (Tidy n) ran (run-begin-Tidy src w n k) in
    (tidy.same_node, (rw is_probing at tidy.tidy).1)

run-IsIdle :
    (src : Buf) (w : World) (n : ProbeNode) (k : ℕ) (t : Task) (c : Client)
    → IsPolite w
    → run src w k (begin n) ≡ t
    → t.phase ≡ probing c
    → IsIdle c
unfolding begin
run-IsIdle src w n k t c polite ran is_probing =
    subst IdlePhase (ap (λ (x : Task). x.phase) ran ∙ is_probing)
      (run-IdlePhase src w polite k (begin n) tt)

-- Failures do not disturb later probes: after any number of turns, whatever connects, probes and timeouts
-- have failed in them, a task that is about to probe, hears nothing on its channel, and whose node then
-- answers set and get with known statuses records just these two answers, and goes on with the next probe
-- after its interval; as long as the node never sends more than one response to a request.
pub run-recovers :
    (src : Buf) (w : World) (n : ProbeNode) (k : ℕ) (t : Task) (c : Client) (w₁ w₂ : Wire)
    (status₁ status₂ : Text)
    → IsPolite w
    → run src w k (begin n) ≡ t
    → t.phase ≡ probing c
    → w.polls t.polled ≡ empty
    → Answers (w.probes t.probed).set_exchange w₁
    → Answers (w.probes t.probed).get_exchange w₂
    → status_code w₁.status ≡ some status₁
    → status_code w₂.status ≡ some status₂
    → step src w t ≡ record t {
      phase = probing (after_request (after_request c set_command) get_command);
      polled = suc t.polled;
      probed = suc t.probed;
      calls = t.calls ++ both_counted n w t.probed status₁ status₂;
      slept = if ltb 0 n.interval_check_ms then t.slept + n.interval_check_ms else t.slept;
    }
run-recovers src w n k t c w₁ w₂ status₁ status₂ polite ran is_probing quiet a₁ a₂ known₁ known₂ =
    let (same, f) = run-IsFor src w n k t c ran is_probing in
    step-probed src w t c _ is_probing quiet
      (probe_answered src c (w.probes t.probed) w₁ w₂ status₁ status₂
        (run-IsIdle src w n k t c polite ran is_probing) a₁ a₂ known₁ known₂)
      refl
    ∙ rw (same, f.cluster, f.address) refl
