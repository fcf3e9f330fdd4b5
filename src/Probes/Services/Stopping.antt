-- ===== src/Probes/Services/Stopping.antt =====
-- Which channels a discovery sends a stop on: src/probes/mod.rs.
use probes.Prelude.{
  ℕ, ◌≡◌, refl, ◌∙◌, List, [], ◌∷◌, In, In-append_left, In-append_right, some, Option-cases, true,
  false, Bool-cases, inl, inr, arith,
}
use probes.Prelude.Bytes.{bytes_eq, bytes_eq→eq}
use probes.Prelude.Map
use probes.Prelude.Map.{Map, contains_key, is_some}
use probes.Prelude.Text.{Text}
use probes.Consul.Node.{ServiceNode}
use probes.Probes.Services.{
  ProbeServices, keys_to_stop, stop_sender, stop_node, stop_all, stop_nodes_probe, spawn_node,
  start_node, start_nodes_probe, sync,
}
use probes.Probes.Services.Sync.{elem, stop_node-get, elem-keys_to_stop, elem-keys, start-keeps}

-- A channel that has been sent on stays so.
start-stopped :
    (d : Map ServiceNode) (s : ProbeServices) → (start_nodes_probe d s).stopped ≡ s.stopped
unfolding start_nodes_probe
start-stopped [] s = refl
start-stopped ((k, n) ∷ d) s =
    start-stopped d (start_node k n s) ∙ unfold start_node spawn_node in ground arith

pub stop_node-stopped :
    (s : ProbeServices) (k : Text) (i : ℕ) → In i s.stopped → In i (stop_node s k).stopped
stop_node-stopped s k i h = elim (Option-cases (Map.get k s.probe_nodes)) [
  | inl e ↦ unfold stop_node in rw (e, stop_sender) h
  | inr (tx, e) ↦ unfold stop_node in rw (e, stop_sender) (In-append_left i s.stopped (tx ∷ []) h)
]

stop_all-stopped :
    (s : ProbeServices) (ks : List Text) (i : ℕ) → In i s.stopped → In i (stop_all s ks).stopped
unfolding stop_all
stop_all-stopped s [] i h = h
stop_all-stopped s (k ∷ ks) i h = stop_all-stopped (stop_node s k) ks i (stop_node-stopped s k i h)

pub sync-stopped :
    (d : Map ServiceNode) (s : ProbeServices) (i : ℕ) → In i s.stopped → In i (sync d s).stopped
unfolding sync stop_nodes_probe
sync-stopped d s i h =
    stop_all-stopped (start_nodes_probe d s)
      (keys_to_stop d (Map.keys (start_nodes_probe d s).probe_nodes)) i (rw (start-stopped d s) h)

pub stop_node-sends :
    (s : ProbeServices) (j : Text) (tx : ℕ)
    → Map.get j s.probe_nodes ≡ some tx
    → In tx (stop_node s j).stopped
unfolding stop_node
stop_node-sends s j tx e = rw (e, stop_sender) (In-append_right tx s.stopped (tx ∷ []) (inl refl))

stop_all-sends :
    (s : ProbeServices) (ks : List Text) (k : Text) (tx : ℕ)
    → elem k ks ≡ true
    → Map.get k s.probe_nodes ≡ some tx
    → In tx (stop_all s ks).stopped
unfolding stop_all elem
stop_all-sends s [] k tx i e = absurd (cc)
stop_all-sends s (j ∷ js) k tx i e = elim (Bool-cases (bytes_eq j k)) [
  | inl same ↦
      stop_all-stopped (stop_node s j) js tx (stop_node-sends s j tx (rw (bytes_eq→eq j k same) e))
  | inr other ↦
      stop_all-sends (stop_node s j) js k tx (rw other at i) (rw (stop_node-get s j k, other) e)
]

-- A node that was monitored and is not discovered any more is told to stop.
pub sync-sends :
    (d : Map ServiceNode) (s : ProbeServices) (k : Text) (tx : ℕ)
    → Map.get k s.probe_nodes ≡ some tx
    → contains_key k d ≡ false
    → In tx (sync d s).stopped
unfolding sync stop_nodes_probe
sync-sends d s k tx e gone =
    let s' : ProbeServices = start_nodes_probe d s in
    let kept : Map.get k s'.probe_nodes ≡ some tx = start-keeps d s k tx e in
    stop_all-sends s' (keys_to_stop d (Map.keys s'.probe_nodes)) k tx
      (rw (elem-keys_to_stop d (Map.keys s'.probe_nodes) k, elem-keys s'.probe_nodes k, gone)
        (unfold contains_key in rw kept))
      kept
