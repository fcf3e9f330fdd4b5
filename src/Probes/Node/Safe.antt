-- ===== src/Probes/Node/Safe.antt =====
-- Servers with which no probe of the task of src/probes/mod.rs panics.
use probes.Prelude.{ℕ, zero, suc, ◌≡◌, ◌≢◌, refl, Result, ok, err, arith}
use probes.Memcached.Cursor.{Buf}
use probes.Memcached.Connection.{MemcachedClientError, Poll, ready, pending}
use probes.Memcached.Client.{Client}
use probes.Memcached.Client.Service.{IsIdle}
use probes.Memcached.Client.Verdict.{AreKnown, probe-Told}
use probes.Probes.Node.{
  TryRecv, message, closed, empty, World, Phase, connecting, probing, finished, crashed, hanging,
  Task, finish, after_failure, on_failure, on_connect, on_result, on_probe, on_poll, connect_poll,
  turn, step, run,
}
use probes.Probes.Node.Lifecycle.{IsSafe}
use probes.Probes.Node.Steady.{IsPolite, IdlePhase, step-IdlePhase}

-- Each answer to the task is one response with a status of the table, or less.
pub record IsTame (w : World) : Type 0 where
  pub polite : IsPolite w
  pub known : (i : ℕ) → AreKnown (polite i)

module _ (src : Buf) (w : World) where
  on_failure-safe : (t : Task) → (on_failure w t).phase ≢ crashed
  unfolding on_failure after_failure finish
  on_failure-safe t = ground arith

  on_connect-safe :
      (t : Task) (p : Poll (Result Client MemcachedClientError))
      → (on_connect w t p).phase ≢ crashed
  unfolding on_connect
  on_connect-safe t (ready (ok c)) = cc
  on_connect-safe t (ready (err x)) = on_failure-safe (record t { connected = suc t.connected })
  on_connect-safe t pending = cc

  on_result-safe :
      (t : Task) (c : Client) (o : Result (Unit {0}) MemcachedClientError)
      → (on_result w t c o).phase ≢ crashed
  unfolding on_result
  on_result-safe t c (ok _) = cc
  on_result-safe t c (err x) = on_failure-safe t

  on_poll-safe :
      (t : Task) (c : Client) (r : TryRecv)
      → IsTame w
      → IsIdle c
      → (on_poll src w t c r).phase ≢ crashed
  unfolding on_poll on_probe finish
  on_poll-safe t c message tame idle = cc
  on_poll-safe t c closed tame idle = cc
  on_poll-safe t c empty tame idle =
      let (r, ran, told) =
        probe-Told src c (w.probes t.probed) idle (tame.polite t.probed) (tame.known t.probed) in
      rw ran (on_result-safe _ r.client r.result)

  turn-safe :
      (t : Task) (p : Phase)
      → IsTame w
      → t.phase ≡ p
      → IdlePhase p
      → p ≢ crashed
      → (turn src w t p).phase ≢ crashed
  unfolding turn
  turn-safe t connecting tame e h fine =
      on_connect-safe t (connect_poll t.node (w.connects t.connected))
  turn-safe t (probing c) tame e h fine = on_poll-safe t c (w.polls t.polled) tame h
  turn-safe t finished tame e h fine = rw e fine
  turn-safe t crashed tame e h fine = absurd (fine refl)
  turn-safe t hanging tame e h fine = rw e fine

  -- A turn against a tame server, of a task that has nothing unread, does not panic.
  pub step-safe :
      (t : Task) → IsTame w → IdlePhase t.phase → t.phase ≢ crashed → (step src w t).phase ≢ crashed
  unfolding step
  step-safe t tame h fine = turn-safe t t.phase tame refl h fine

  -- Against a tame server no probe of the task panics, however many turns it makes.
  pub IsTame-IsSafe : (t : Task) → IsTame w → IdlePhase t.phase → t.phase ≢ crashed → IsSafe src w t
  unfolding run
  IsTame-IsSafe t tame h fine zero = fine
  IsTame-IsSafe t tame h fine (suc n) =
      IsTame-IsSafe (step src w t) tame (step-IdlePhase src w tame.polite t h)
        (step-safe t tame h fine) n
