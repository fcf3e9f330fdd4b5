-- ===== src/Probes/Services/Sync.antt =====
-- After a successful discovery exactly the discovered nodes are probed: src/probes/mod.rs.
use probes.Prelude.{
  ℕ, ◌≡◌, refl, ◌∙◌, List, [], ◌∷◌, none, some, Option-cases, Bool, true, false, not, ◌||◌, ◌&&◌,
  if◌then◌else◌, inl, inr, arith,
}
use probes.Prelude.Bytes.{bytes_eq, bytes_eq→eq}
use probes.Prelude.Map
use probes.Prelude.Map.{Map, contains_key, is_some, get-insert, get-remove, keys}
use probes.Prelude.Text.{Text}
use probes.Consul.Node.{ServiceNode}
use probes.Probes.Services.{
  ProbeServices, keys_to_stop, stop_sender, stop_node, stop_all, stop_nodes_probe, spawn_node,
  start_node, start_nodes_probe, sync,
}

start_node-contains :
    (j : Text) (n : ServiceNode) (s : ProbeServices) (k : Text)
    → contains_key k (start_node j n s).probe_nodes ≡ (contains_key k s.probe_nodes || bytes_eq j k)
unfolding start_node spawn_node contains_key
start_node-contains j n s k =
    ground (arith, bytes_eq→eq j k, get-insert j k s.channels s.probe_nodes)

-- What the map of senders says of a key, after the walk over the discovered nodes.
start-contains :
    (d : Map ServiceNode) (s : ProbeServices) (k : Text)
    → contains_key k (start_nodes_probe d s).probe_nodes
      ≡ (contains_key k s.probe_nodes || contains_key k d)
unfolding start_nodes_probe contains_key
start-contains [] s k = ground arith
start-contains ((j, n) ∷ rest) s k =
    ground (arith, start-contains rest (start_node j n s) k, start_node-contains j n s k)

start_node-keeps :
    (j : Text) (n : ServiceNode) (s : ProbeServices) (k : Text) (tx : ℕ)
    → Map.get k s.probe_nodes ≡ some tx
    → Map.get k (start_node j n s).probe_nodes ≡ some tx
unfolding start_node spawn_node contains_key
start_node-keeps j n s k tx h =
    ground (arith, bytes_eq→eq j k, get-insert j k s.channels s.probe_nodes)

-- A key that has a sender keeps it.
pub start-keeps :
    (d : Map ServiceNode) (s : ProbeServices) (k : Text) (tx : ℕ)
    → Map.get k s.probe_nodes ≡ some tx
    → Map.get k (start_nodes_probe d s).probe_nodes ≡ some tx
unfolding start_nodes_probe
start-keeps [] s k tx h = h
start-keeps ((j, n) ∷ rest) s k tx h =
    start-keeps rest (start_node j n s) k tx (start_node-keeps j n s k tx h)

unfoldable pub elem : Text → List Text → Bool
elem k [] = false
elem k (j ∷ js) = bytes_eq j k || elem k js

pub stop_node-get :
    (s : ProbeServices) (j k : Text)
    → Map.get k (stop_node s j).probe_nodes
      ≡ (if bytes_eq j k then none else Map.get k s.probe_nodes)
unfolding stop_node
stop_node-get s j k = elim (Option-cases (Map.get j s.probe_nodes)) [
  | inl e ↦ rw (e, stop_sender) (ground (arith, bytes_eq→eq j k))
  | inr (tx, e) ↦ rw (e, stop_sender) (get-remove j k s.probe_nodes)
]

stop_all-get :
    (s : ProbeServices) (js : List Text) (k : Text)
    → Map.get k (stop_all s js).probe_nodes ≡ (if elem k js then none else Map.get k s.probe_nodes)
unfolding stop_all elem
stop_all-get s [] k = refl
stop_all-get s (j ∷ js) k =
    stop_all-get (stop_node s j) js k ∙ rw (stop_node-get s j k) (ground arith)

pub elem-keys_to_stop :
    (d : Map ServiceNode) (ks : List Text) (k : Text)
    → elem k (keys_to_stop d ks) ≡ (elem k ks && not (contains_key k d))
unfolding elem keys_to_stop
elem-keys_to_stop d [] k = refl
elem-keys_to_stop d (j ∷ js) k = ground (arith, bytes_eq→eq j k, elem-keys_to_stop d js k)

pub elem-keys : {V : Type 0} (m : Map V) (k : Text) → elem k (keys m) ≡ contains_key k m
unfolding elem contains_key
elem-keys [] k = refl
elem-keys ((j, v) ∷ m) k = ground (arith, elem-keys m k)

pub stop-get :
    (d : Map ServiceNode) (s : ProbeServices) (k : Text)
    → Map.get k (stop_nodes_probe d s).probe_nodes
      ≡ (if contains_key k d then Map.get k s.probe_nodes else none)
unfolding stop_nodes_probe
stop-get d s k =
    stop_all-get s (keys_to_stop d (keys s.probe_nodes)) k
    ∙ rw (elem-keys_to_stop d (keys s.probe_nodes) k, elem-keys s.probe_nodes k)
        (unfold contains_key in ground arith)

-- After a discovery a key is monitored exactly if the discovery has it, whatever was monitored before.
pub sync-contains :
    (d : Map ServiceNode) (s : ProbeServices) (k : Text)
    → contains_key k (sync d s).probe_nodes ≡ contains_key k d
unfolding contains_key sync
sync-contains d s k = ground (arith, stop-get d (start_nodes_probe d s) k, start-contains d s k)

-- A node that was monitored and is discovered again keeps its channel: its probe is not restarted.
pub sync-keeps :
    (d : Map ServiceNode) (s : ProbeServices) (k : Text) (tx : ℕ)
    → contains_key k d ≡ true
    → Map.get k s.probe_nodes ≡ some tx
    → Map.get k (sync d s).probe_nodes ≡ some tx
unfolding sync
sync-keeps d s k tx there h =
    stop-get d (start_nodes_probe d s) k ∙ rw there (start-keeps d s k tx h)
