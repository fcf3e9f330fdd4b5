-- ===== src/Probes/Services/Spawning.antt =====
-- Which tasks a discovery spawns: src/probes/mod.rs.
use probes.Prelude.{
  ℕ, suc, ◌≡◌, refl, sym, ◌∙◌, List, [], ◌∷◌, ◌++◌, append_assoc, append-nil, none, if◌then◌else◌,
  Bool-cases, inl, inr, arith,
}
use probes.Prelude.Bytes.{bytes_eq→eq, bytes_eq_refl}
use probes.Prelude.Map
use probes.Prelude.Map.{Map, contains_key, is_some, Distinct, get-insert}
use probes.Prelude.Text.{Text}
use probes.Consul.Node.{ServiceNode}
use probes.Probes.Services.{
  Spawned, ProbeServices, keys_to_stop, stop_sender, stop_node, stop_all, stop_nodes_probe,
  spawn_node, start_node, start_nodes_probe, sync,
}

-- The discovered nodes with no sender, in the order of the walk.
unfoldable pub missing : Map ServiceNode → Map ℕ → List ServiceNode
missing [] m = []
missing ((k, n) ∷ d) m = let rest = missing d m in if contains_key k m then rest else n ∷ rest

-- A task for each, on channels counted from `channel`.
unfoldable pub tasks : ℕ → ℕ → List ServiceNode → List Spawned
tasks interval channel [] = []
tasks interval channel (n ∷ ns) =
    record { service_node = n; interval = interval; receiver = channel }
    ∷ tasks interval (suc channel) ns

-- A sender for a key that is not walked over again makes no difference.
missing-insert :
    (k : Text) (v : ℕ) (d : Map ServiceNode) (m : Map ℕ)
    → Map.get k d ≡ none
    → missing d (Map.insert k v m) ≡ missing d m
unfolding missing contains_key
missing-insert k v [] m h = refl
missing-insert k v ((j, n) ∷ d) m h =
    ground (arith, get-insert k j v m, bytes_eq→eq k j, bytes_eq_refl j, missing-insert k v d m)

start-spawned :
    (d : Map ServiceNode) (s : ProbeServices)
    → Distinct d
    → (start_nodes_probe d s).spawned
      ≡ s.spawned ++ tasks s.interval_check_ms s.channels (missing d s.probe_nodes)
unfolding start_nodes_probe start_node spawn_node missing tasks
start-spawned [] s h = sym (append-nil s.spawned)
start-spawned ((k, n) ∷ d) s h = elim (Bool-cases (contains_key k s.probe_nodes)) [
  | inl there ↦ rw (there, start_nodes_probe, start_node) (start-spawned d s h.1)
  | inr new ↦
      rw (new, start_nodes_probe, start_node)
        (start-spawned d (spawn_node k n s) h.1
          ∙ rw (missing-insert k s.channels d s.probe_nodes h.0, append_assoc))
]

stop_node-spawned : (s : ProbeServices) (k : Text) → (stop_node s k).spawned ≡ s.spawned
unfolding stop_node stop_sender
stop_node-spawned s k = ground arith

pub stop_all-spawned : (s : ProbeServices) (ks : List Text) → (stop_all s ks).spawned ≡ s.spawned
unfolding stop_all
stop_all-spawned s [] = refl
stop_all-spawned s (k ∷ ks) = stop_all-spawned (stop_node s k) ks ∙ stop_node-spawned s k

-- A discovery whose keys are distinct spawns one task for each discovered node that had no sender, in the
-- order of the walk, with the interval of the services and the next channels, and no other task.
pub sync-spawned :
    (d : Map ServiceNode) (s : ProbeServices)
    → Distinct d
    → (sync d s).spawned
      ≡ s.spawned ++ tasks s.interval_check_ms s.channels (missing d s.probe_nodes)
unfolding sync stop_nodes_probe
sync-spawned d s h =
    stop_all-spawned (start_nodes_probe d s)
      (keys_to_stop d (Map.keys (start_nodes_probe d s).probe_nodes))
    ∙ start-spawned d s h
