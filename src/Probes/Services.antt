-- ===== src/Probes/Services.antt =====
-- `ProbeServices` of src/probes/mod.rs: which nodes are probed, as the discovery changes.
-- A stop channel is a number: the sender is kept in `probe_nodes`, the receiver goes to the task. What
-- the code does to the runtime is kept beside it: the tasks spawned, and the channels sent on.
pub mod Ledger
pub mod Sync
pub mod Spawning
pub mod Channels
pub mod Probed
pub mod Stopping
pub mod Held
use probes.Prelude.{
  ℕ, zero, suc, ◌≡◌, List, [], ◌∷◌, ◌++◌, Option, none, some, Bool, not, if◌then◌else◌,
}
use probes.Prelude.Map
use probes.Prelude.Map.{Map, contains_key}
use probes.Prelude.Text.{Text}
use probes.Consul.Node.{ConsulClient, ServiceNode}

-- The arguments of a `start_node_probe` that is spawned.
pub record Spawned : Type 0 where
  pub service_node : ServiceNode
  pub interval : ℕ
  pub receiver : ℕ

pub record ProbeServices : Type 0 where
  pub consul_client : ConsulClient
  pub tag : Text
  pub interval_check_ms : ℕ
  pub probe_nodes : Map ℕ
  -- the number of channels made so far, which is the next one's
  pub channels : ℕ
  pub spawned : List Spawned
  pub stopped : List ℕ

unfoldable pub new : ConsulClient → Text → ℕ → ProbeServices
new consul_client tag interval_check_ms = record {
  consul_client = consul_client;
  tag = tag;
  interval_check_ms = interval_check_ms;
  probe_nodes = [];
  channels = 0;
  spawned = [];
  stopped = [];
}

-- The first loop of `stop_nodes_probe`.
pub keys_to_stop : Map ServiceNode → List Text → List Text
keys_to_stop discovered_nodes [] = []
keys_to_stop discovered_nodes (k ∷ ks) =
    let rest = keys_to_stop discovered_nodes ks in
    if not (contains_key k discovered_nodes) then k ∷ rest else rest

-- The `match` on what `remove` returns; a node that is not monitored is only warned about.
stop_sender : ProbeServices → Text → Option ℕ → ProbeServices
stop_sender s k (some tx) = record s {
  probe_nodes = Map.remove k s.probe_nodes;
  stopped = s.stopped ++ tx ∷ [];
}
stop_sender s k none = s

-- One turn of the second loop.
pub stop_node : ProbeServices → Text → ProbeServices
unfolding stop_sender
stop_node s k = stop_sender s k (Map.get k s.probe_nodes)

pub stop_all : ProbeServices → List Text → ProbeServices
stop_all s [] = s
stop_all s (k ∷ ks) = stop_all (stop_node s k) ks

unfoldable pub stop_nodes_probe : Map ServiceNode → ProbeServices → ProbeServices
unfolding stop_all stop_node keys_to_stop
stop_nodes_probe discovered_nodes s =
    stop_all s (keys_to_stop discovered_nodes (Map.keys s.probe_nodes))

-- A new channel, its sender kept and its receiver given to a new task.
spawn_node : Text → ServiceNode → ProbeServices → ProbeServices
spawn_node k node s = record s {
  probe_nodes = Map.insert k s.channels s.probe_nodes;
  channels = suc s.channels;
  spawned =
      s.spawned
      ++ record { service_node = node; interval = s.interval_check_ms; receiver = s.channels } ∷ [];
}

pub start_node : Text → ServiceNode → ProbeServices → ProbeServices
start_node k node s = if not (contains_key k s.probe_nodes) then spawn_node k node s else s

unfoldable pub start_nodes_probe : Map ServiceNode → ProbeServices → ProbeServices
unfolding start_node spawn_node
start_nodes_probe [] s = s
start_nodes_probe ((k, node) ∷ rest) s = start_nodes_probe rest (start_node k node s)

-- What the discovery loop does with a successful discovery.
unfoldable pub sync : Map ServiceNode → ProbeServices → ProbeServices
sync nodes s = stop_nodes_probe nodes (start_nodes_probe nodes s)
