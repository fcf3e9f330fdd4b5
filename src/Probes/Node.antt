-- ===== src/Probes/Node.antt =====
-- `ProbeNode` of src/probes/mod.rs: the task that probes one memcached node until it is told to stop.
-- What the task awaits is answered by a `World`: the answers to its first, second, … attempt to connect,
-- look at its stop channel, and probe. `step` is one turn of the outer or the inner loop of `start`.
pub mod Cleanup
pub mod Tidy
pub mod Series
pub mod Removal
pub mod Lifecycle
pub mod Heeding
pub mod Running
pub mod Steady
pub mod Counting
pub mod Counters
pub mod Safe
pub mod Failures
pub mod Conversation
use probes.Prelude.{
  ℕ, zero, suc, ◌+◌, List, [], ◌∷◌, ◌++◌, map, Result, ok, err, Outcome, returns, panics, ltb,
  if◌then◌else◌,
}
use probes.Prelude.Text.{Text, text, decimal}
use probes.Metrics.{
  MetricCall, remove_number_of_requests, remove_response_time, remove_failure_probe,
  inc_failure_probe,
}
use probes.Memcached.Cursor.{Buf}
use probes.Memcached.Connection.{IoError, MemcachedClientError, Poll, ready, pending}
use probes.Memcached.Client.{Client, ProbeScript, Ran, status_table, connect, probe}

pub record ProbeNode : Type 0 where
  pub cluster_name : Text
  pub ip : Text
  pub port : ℕ
  pub socket : Text
  pub interval_check_ms : ℕ
  -- the channel whose receiver the node holds
  pub stop_probe_resp_rx : ℕ

unfoldable pub new : Text → Text → ℕ → ℕ → ℕ → ProbeNode
new cluster_name ip port interval_check_ms stop_probe_resp_rx = record {
  cluster_name = cluster_name;
  ip = ip;
  port = port;
  socket = ip ++ (text ":" ++ decimal port);
  interval_check_ms = interval_check_ms;
  stop_probe_resp_rx = stop_probe_resp_rx;
}

-- `Display`, for the log messages.
unfoldable pub to_string : ProbeNode → Text
to_string n = n.cluster_name ++ (text ":" ++ (n.ip ++ (text ":" ++ decimal n.port)))

-- The series of one type of command: its times, and its requests under every status.
stop_type : ProbeNode → Text → List MetricCall
stop_type n cmd_type =
    remove_response_time n.cluster_name n.socket cmd_type
    ∷ map (λ entry. remove_number_of_requests n.cluster_name n.socket entry.1 cmd_type) status_table

-- The calls that `stop` makes. The table is a hash map, whose order is left open; here it is the order
-- of the source.
unfoldable pub stop : ProbeNode → List MetricCall
unfolding stop_type
stop n =
    remove_failure_probe n.cluster_name n.socket
    ∷ (stop_type n (text "set") ++ stop_type n (text "get"))

unfoldable pub manage_failure : ProbeNode → List MetricCall
manage_failure n = inc_failure_probe n.cluster_name n.socket ∷ []

-- `oneshot::Receiver::try_recv`
pub data TryRecv : Type 0 where
  message closed empty : TryRecv

pub record World : Type 0 where
  pub connects : ℕ → Poll (Result (Unit {0}) IoError)
  pub polls : ℕ → TryRecv
  pub probes : ℕ → ProbeScript

pub data Phase : Type 0 where
  -- at the head of the outer loop
  connecting : Phase
  -- at the head of the inner loop
  probing : Client → Phase
  -- `start` has returned
  finished : Phase
  -- the task has panicked
  crashed : Phase
  -- the attempt to connect is never answered
  hanging : Phase

-- A task, how often it has asked for what, the calls it has made on the metrics, and the time that it
-- has slept, in milliseconds.
pub record Task : Type 0 where
  pub node : ProbeNode
  pub phase : Phase
  pub connected : ℕ
  pub polled : ℕ
  pub probed : ℕ
  pub calls : List MetricCall
  pub slept : ℕ

-- A `try_recv` that tells to stop.
finish : Task → Task
finish t = record t { phase = finished; calls = t.calls ++ stop t.node; polled = suc t.polled }

-- The second `match` on `try_recv`, behind the inner loop.
after_failure : TryRecv → Task → Task
after_failure message t = finish t
after_failure closed t = finish t
after_failure empty t = record t {
  phase = connecting;
  polled = suc t.polled;
  slept = t.slept + 500;
}

-- `manage_failure`, and what follows.
on_failure : World → Task → Task
on_failure w t =
    after_failure (w.polls t.polled) (record t { calls = t.calls ++ manage_failure t.node })

on_connect : World → Task → Poll (Result Client MemcachedClientError) → Task
on_connect w t (ready (ok c)) = record t { phase = probing c; connected = suc t.connected }
on_connect w t (ready (err issue)) = on_failure w (record t { connected = suc t.connected })
on_connect w t pending = record t { phase = hanging }

-- The end of a turn of the inner loop.
on_result : World → Task → Client → Result (Unit {0}) MemcachedClientError → Task
on_result w t c (ok _) = record t {
  phase = probing c;
  slept = if ltb 0 t.node.interval_check_ms then t.slept + t.node.interval_check_ms else t.slept;
}
on_result w t c (err issue) = on_failure w t

on_probe : World → Task → Outcome (Ran (Result (Unit {0}) MemcachedClientError)) → Task
on_probe w t (returns r) =
    on_result w (record t { probed = suc t.probed; calls = t.calls ++ r.calls }) r.client r.result
on_probe w t panics = record t { phase = crashed }

-- The first `match` on `try_recv`, in the inner loop.
on_poll : Buf → World → Task → Client → TryRecv → Task
on_poll src w t c message = finish t
on_poll src w t c closed = finish t
on_poll src w t c empty =
    on_probe w (record t { polled = suc t.polled }) (probe src c (w.probes t.probed))

-- `memcached::connect` awaited.
connect_poll :
    ProbeNode → Poll (Result (Unit {0}) IoError) → Poll (Result Client MemcachedClientError)
connect_poll n (ready answer) = ready (connect n.cluster_name n.socket answer)
connect_poll n pending = pending

turn : Buf → World → Task → Phase → Task
turn src w t connecting = on_connect w t (connect_poll t.node (w.connects t.connected))
turn src w t (probing c) = on_poll src w t c (w.polls t.polled)
turn src w t finished = t
turn src w t crashed = t
turn src w t hanging = t

unfoldable pub step : Buf → World → Task → Task
unfolding turn connect_poll on_connect on_poll on_probe on_result on_failure after_failure finish
step src w t = turn src w t t.phase

unfoldable pub begin : ProbeNode → Task
begin n = record {
  node = n;
  phase = connecting;
  connected = 0;
  polled = 0;
  probed = 0;
  calls = [];
  slept = 0;
}

-- `start`, as far as `n` turns go.
unfoldable pub run : Buf → World → ℕ → Task → Task
run src w zero t = t
run src w (suc n) t = run src w n (step src w t)
