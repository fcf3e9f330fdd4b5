-- ===== src/Probes/Services/Probed.antt =====
-- Which node is probed under a key after a discovery: src/probes/mod.rs.
use probes.Prelude.{
  ℕ, ◌≡◌, refl, ◌∙◌, [], ◌∷◌, get_elem?, get_elem?-lt, get_elem?-append_left, get_elem?-append_self,
  none, some, true, false, Bool-cases, inl, inr, arith,
}
use probes.Prelude.Bytes.{bytes_eq, bytes_eq→eq, bytes_eq_refl}
use probes.Prelude.Map
use probes.Prelude.Map.{Map, contains_key, is_some, get-insert}
use probes.Prelude.Text.{Text}
use probes.Consul.Node.{ServiceNode}
use probes.Consul.Http.Keys.{IsKeyed}
use probes.Probes.Services.{
  Spawned, ProbeServices, keys_to_stop, stop_nodes_probe, spawn_node, start_node, start_nodes_probe,
  sync,
}
use probes.Probes.Services.Sync.{stop-get}
use probes.Probes.Services.Spawning.{stop_all-spawned}
use probes.Probes.Services.Channels.{
  Channels, IsKeyed-tail, IsKeyed-head, start_node-Channels, new_task,
}

-- The key has a sender, and the task behind it is for this node.
pub record IsProbed (s : ProbeServices) (k : Text) (n : ServiceNode) : Type 0 where
  pub sender : ℕ
  pub task : Spawned
  pub kept : Map.get k s.probe_nodes ≡ some sender
  pub spawned : get_elem? s.spawned sender ≡ some task
  pub node : task.service_node ≡ n

spawn_node-IsProbed_self :
    (k : Text) (n : ServiceNode) (s : ProbeServices) → Channels s → IsProbed (spawn_node k n s) k n
unfolding spawn_node
spawn_node-IsProbed_self k n s c = record {
  sender = s.channels;
  task = new_task n s;
  kept = rw (get-insert k k s.channels s.probe_nodes, bytes_eq_refl k);
  spawned = get_elem?-append_self s.spawned [] (new_task n s) s.channels c.counted;
  node = refl;
}

spawn_node-IsProbed :
    (j k : Text) (m n : ServiceNode) (s : ProbeServices)
    → bytes_eq j k ≡ false
    → IsProbed s k n
    → IsProbed (spawn_node j m s) k n
unfolding spawn_node
spawn_node-IsProbed j k m n s other v = record {
  sender = v.sender;
  task = v.task;
  kept = rw (get-insert j k s.channels s.probe_nodes, other) v.kept;
  spawned =
      get_elem?-append_left s.spawned (new_task m s ∷ []) v.sender
        (get_elem?-lt s.spawned v.sender v.spawned)
      ∙ v.spawned;
  node = v.node;
}

start_node-IsProbed :
    (j k : Text) (m n : ServiceNode) (s : ProbeServices)
    → IsProbed s k n
    → IsProbed (start_node j m s) k n
unfolding start_node contains_key
start_node-IsProbed j k m n s v = elim (Bool-cases (contains_key j s.probe_nodes)) [
  | inl there ↦ rw there v
  | inr missing ↦
      let other : bytes_eq j k ≡ false = ground (arith, v.kept, bytes_eq→eq j k) in
      rw missing (spawn_node-IsProbed j k m n s other v)
]

start-IsProbed :
    (d : Map ServiceNode) (k : Text) (n : ServiceNode) (s : ProbeServices)
    → IsProbed s k n
    → IsProbed (start_nodes_probe d s) k n
unfolding start_nodes_probe
start-IsProbed [] k n s v = v
start-IsProbed ((j, m) ∷ d) k n s v =
    start-IsProbed d k n (start_node j m s) (start_node-IsProbed j k m n s v)

start_node-none :
    (j k : Text) (m : ServiceNode) (s : ProbeServices)
    → bytes_eq j k ≡ false
    → Map.get k s.probe_nodes ≡ none
    → Map.get k (start_node j m s).probe_nodes ≡ none
unfolding start_node spawn_node contains_key
start_node-none j k m s other new = ground (arith, get-insert j k s.channels s.probe_nodes)

-- A discovered node whose key has no sender gets a task of its own.
start-IsProbed_new :
    (d : Map ServiceNode) (s : ProbeServices) (k : Text) (n : ServiceNode)
    → IsKeyed d
    → Channels s
    → Map.get k s.probe_nodes ≡ none
    → Map.get k d ≡ some n
    → IsProbed (start_nodes_probe d s) k n
unfolding start_nodes_probe start_node Map.get contains_key
start-IsProbed_new [] s k n h c new found = absurd (cc)
start-IsProbed_new ((j, m) ∷ d) s k n h c new found = elim (Bool-cases (bytes_eq j k)) [
  | inl same ↦
      let here : m ≡ n = cc (rw same at found) in
      let key : j ≡ k = bytes_eq→eq j k same in
      let missing : contains_key j s.probe_nodes ≡ false = rw (key, new) in
      start-IsProbed d k n (start_node j m s)
        (rw (missing, start_node) (rw (key, here) (spawn_node-IsProbed_self k n s c)))
  | inr other ↦
      start-IsProbed_new d (start_node j m s) k n (IsKeyed-tail j m d h)
        (start_node-Channels j m s (IsKeyed-head j m d h) c) (start_node-none j k m s other new)
        (rw other at found)
]

stop-IsProbed :
    (d : Map ServiceNode) (s : ProbeServices) (k : Text) (n : ServiceNode)
    → contains_key k d ≡ true
    → IsProbed s k n
    → IsProbed (stop_nodes_probe d s) k n
stop-IsProbed d s k n there v = record {
  sender = v.sender;
  task = v.task;
  kept = stop-get d s k ∙ rw there v.kept;
  spawned =
      unfold stop_nodes_probe in
      rw (stop_all-spawned s (keys_to_stop d (Map.keys s.probe_nodes))) v.spawned;
  node = v.node;
}

-- After a discovery, under the key of a discovered node there is the node that was probed under it
-- before, or else the node discovered.
pub sync-IsProbed_old :
    (d : Map ServiceNode) (s : ProbeServices) (k : Text) (n : ServiceNode)
    → contains_key k d ≡ true
    → IsProbed s k n
    → IsProbed (sync d s) k n
unfolding sync
sync-IsProbed_old d s k n there v =
    stop-IsProbed d (start_nodes_probe d s) k n there (start-IsProbed d k n s v)

pub sync-IsProbed_new :
    (d : Map ServiceNode) (s : ProbeServices) (k : Text) (n : ServiceNode)
    → IsKeyed d
    → Channels s
    → Map.get k s.probe_nodes ≡ none
    → Map.get k d ≡ some n
    → IsProbed (sync d s) k n
unfolding sync contains_key
sync-IsProbed_new d s k n h c new found =
    stop-IsProbed d (start_nodes_probe d s) k n (rw found)
      (start-IsProbed_new d s k n h c new found)
