-- ===== src/Probes/Node/Running.antt =====
-- A task that hears nothing goes on, and a task keeps its node: src/probes/mod.rs.
use probes.Prelude.{
  ℕ, zero, suc, ◌≡◌, ◌≢◌, refl, ◌++◌, Bool, true, false, Result, ok, err, Outcome, returns, panics,
  arith,
}
use probes.Memcached.Cursor.{Buf}
use probes.Memcached.Connection.{MemcachedClientError, Poll, ready, pending}
use probes.Memcached.Client.{Client, Ran, probe}
use probes.Probes.Node.{
  TryRecv, message, closed, empty, World, Phase, connecting, probing, finished, crashed, hanging,
  Task, finish, after_failure, on_failure, on_connect, on_result, on_probe, on_poll, connect_poll,
  turn, step, run,
}

-- The task has not returned and has not panicked.
abbrev pub is_running : Phase → Bool
is_running connecting = true
is_running (probing c) = true
is_running finished = false
is_running crashed = false
is_running hanging = true

module _ (w : World) where
  on_failure-node : (t : Task) → (on_failure w t).node ≡ t.node
  unfolding on_failure after_failure finish
  on_failure-node t = ground arith

  on_result-node :
      (t : Task) (c : Client) (o : Result (Unit {0}) MemcachedClientError)
      → (on_result w t c o).node ≡ t.node
  unfolding on_result
  on_result-node t c (ok _) = refl
  on_result-node t c (err e) = on_failure-node t

  on_connect-node :
      (t : Task) (p : Poll (Result Client MemcachedClientError)) → (on_connect w t p).node ≡ t.node
  unfolding on_connect
  on_connect-node t (ready (ok c)) = refl
  on_connect-node t (ready (err e)) = on_failure-node (record t { connected = suc t.connected })
  on_connect-node t pending = refl

  on_probe-node :
      (t : Task) (o : Outcome (Ran (Result (Unit {0}) MemcachedClientError)))
      → (on_probe w t o).node ≡ t.node
  unfolding on_probe
  on_probe-node t (returns r) =
      on_result-node (record t { probed = suc t.probed; calls = t.calls ++ r.calls }) r.client
        r.result
  on_probe-node t panics = refl

  on_poll-node :
      (src : Buf) (t : Task) (c : Client) (r : TryRecv) → (on_poll src w t c r).node ≡ t.node
  unfolding on_poll finish
  on_poll-node src t c message = refl
  on_poll-node src t c closed = refl
  on_poll-node src t c empty =
      on_probe-node (record t { polled = suc t.polled }) (probe src c (w.probes t.probed))

  turn-node : (src : Buf) (t : Task) (p : Phase) → (turn src w t p).node ≡ t.node
  unfolding turn
  turn-node src t connecting = on_connect-node t (connect_poll t.node (w.connects t.connected))
  turn-node src t (probing c) = on_poll-node src t c (w.polls t.polled)
  turn-node src t finished = refl
  turn-node src t crashed = refl
  turn-node src t hanging = refl

  -- A task keeps its node.
  pub step-node : (src : Buf) (t : Task) → (step src w t).node ≡ t.node
  unfolding step
  step-node src t = turn-node src t t.phase

module _ (src : Buf) (w : World) (quiet : (i : ℕ) → w.polls i ≡ empty) where
  on_failure-is_running : (t : Task) → is_running (on_failure w t).phase ≡ true
  unfolding on_failure after_failure
  on_failure-is_running t = rw (quiet t.polled)

  on_result-is_running :
      (t : Task) (c : Client) (o : Result (Unit {0}) MemcachedClientError)
      → is_running (on_result w t c o).phase ≡ true
  unfolding on_result
  on_result-is_running t c (ok _) = refl
  on_result-is_running t c (err e) = on_failure-is_running t

  on_connect-is_running :
      (t : Task) (p : Poll (Result Client MemcachedClientError))
      → is_running (on_connect w t p).phase ≡ true
  unfolding on_connect
  on_connect-is_running t (ready (ok c)) = refl
  on_connect-is_running t (ready (err e)) =
      on_failure-is_running (record t { connected = suc t.connected })
  on_connect-is_running t pending = refl

  on_probe-is_running :
      (t : Task) (o : Outcome (Ran (Result (Unit {0}) MemcachedClientError)))
      → (on_probe w t o).phase ≢ crashed
      → is_running (on_probe w t o).phase ≡ true
  unfolding on_probe
  on_probe-is_running t (returns r) h =
      on_result-is_running (record t { probed = suc t.probed; calls = t.calls ++ r.calls }) r.client
        r.result
  on_probe-is_running t panics h = absurd (h refl)

  turn-is_running :
      (t : Task) (p : Phase)
      → t.phase ≡ p
      → is_running p ≡ true
      → (turn src w t p).phase ≢ crashed
      → is_running (turn src w t p).phase ≡ true
  unfolding turn on_poll
  turn-is_running t connecting q a safe =
      on_connect-is_running t (connect_poll t.node (w.connects t.connected))
  turn-is_running t (probing c) q a safe = rw (quiet t.polled) (
      on_probe-is_running (record t { polled = suc t.polled }) (probe src c (w.probes t.probed))
        (rw (quiet t.polled) at safe))
  turn-is_running t finished q a safe = absurd (cc)
  turn-is_running t crashed q a safe = absurd (cc)
  turn-is_running t hanging q a safe = rw q

  -- A task that hears nothing, and whose probe does not panic, goes on running.
  pub step-is_running :
      (t : Task)
      → is_running t.phase ≡ true
      → (step src w t).phase ≢ crashed
      → is_running (step src w t).phase ≡ true
  unfolding step
  step-is_running t a safe = turn-is_running t t.phase refl a safe

-- The last turn comes behind the others.
pub run-step :
    (src : Buf) (w : World) (k : ℕ) (t : Task) → run src w (suc k) t ≡ step src w (run src w k t)
unfolding run
run-step src w zero t = refl
run-step src w (suc k) t = run-step src w k (step src w t)
