-- ===== src/Probes/Services/Held.antt =====
-- Where the senders of src/probes/mod.rs are: kept under a key, or used.
use probes.Prelude.{
  ℕ, ◌≡◌, ◌<◌, refl, ◌⊎◌, List, [], ◌∷◌, In, some, Option-cases, false, Bool-cases, inl, inr, arith,
}
use native.Mathlib.Decide.{dec_lt}
use probes.Prelude.Bytes.{bytes_eq, bytes_eq→eq, bytes_eq_refl}
use probes.Prelude.Map
use probes.Prelude.Map.{Map, contains_key, is_some, get-insert}
use probes.Prelude.Text.{Text}
use probes.Consul.Node.{ServiceNode}
use probes.Probes.Services.{
  ProbeServices, keys_to_stop, stop_sender, stop_node, stop_all, stop_nodes_probe, spawn_node,
  start_node, start_nodes_probe, sync,
}
use probes.Probes.Services.Sync.{stop_node-get}
use probes.Probes.Services.Stopping.{stop_node-sends, stop_node-stopped}

-- The sender of the channel is kept under a key, or it has been used.
abbrev pub IsHeld : ProbeServices → ℕ → Type 0
IsHeld s i = ((k : Text) × (Map.get k s.probe_nodes ≡ some i)) ⊎ In i s.stopped

-- No sender is lost.
abbrev pub AreHeld : ProbeServices → Type 0
AreHeld s = (i : ℕ) → i < s.channels → IsHeld s i

spawn_node-AreHeld :
    (k : Text) (n : ServiceNode) (s : ProbeServices)
    → contains_key k s.probe_nodes ≡ false
    → AreHeld s
    → AreHeld (spawn_node k n s)
unfolding spawn_node contains_key
spawn_node-AreHeld k n s missing h i lt = elim (dec_lt i s.channels) [
  | yes old ↦ elim (h i old) [ inl (j, e) ↦ inl (j, kept j e) | inr used ↦ inr used ]
  | no last ↦
      let new : s.channels ≡ i = omega arith in
      inl (k, rw (get-insert k k s.channels s.probe_nodes, bytes_eq_refl k, new) refl)
]
  where
    kept :
        (j : Text)
        → Map.get j s.probe_nodes ≡ some i
        → Map.get j (Map.insert k s.channels s.probe_nodes) ≡ some i
    kept j e = ground (arith, bytes_eq→eq k j, get-insert k j s.channels s.probe_nodes)

start_node-AreHeld :
    (k : Text) (n : ServiceNode) (s : ProbeServices) → AreHeld s → AreHeld (start_node k n s)
unfolding start_node
start_node-AreHeld k n s h = elim (Bool-cases (contains_key k s.probe_nodes)) [
  | inl there ↦ rw there h
  | inr missing ↦ rw missing (spawn_node-AreHeld k n s missing h)
]

start-AreHeld :
    (d : Map ServiceNode) (s : ProbeServices) → AreHeld s → AreHeld (start_nodes_probe d s)
unfolding start_nodes_probe
start-AreHeld [] s h = h
start-AreHeld ((k, n) ∷ d) s h = start-AreHeld d (start_node k n s) (start_node-AreHeld k n s h)

stop_node-channels : (s : ProbeServices) (j : Text) → (stop_node s j).channels ≡ s.channels
unfolding stop_node
stop_node-channels s j = elim (Option-cases (Map.get j s.probe_nodes)) [
  | inl e ↦ rw (e, stop_sender) refl
  | inr (tx, e) ↦ rw (e, stop_sender) refl
]

stop_node-IsHeld : (s : ProbeServices) (j : Text) (i : ℕ) → IsHeld s i → IsHeld (stop_node s j) i
stop_node-IsHeld s j i (inl (k, e)) = elim (Bool-cases (bytes_eq j k)) [
  | inl same ↦ inr (stop_node-sends s j i (rw (bytes_eq→eq j k same) e))
  | inr other ↦ inl (k, rw (stop_node-get s j k, other) e)
]
stop_node-IsHeld s j i (inr used) = inr (stop_node-stopped s j i used)

stop_all-AreHeld : (s : ProbeServices) (js : List Text) → AreHeld s → AreHeld (stop_all s js)
unfolding stop_all
stop_all-AreHeld s [] h = h
stop_all-AreHeld s (j ∷ js) h =
    stop_all-AreHeld (stop_node s j) js
      (λ i lt. stop_node-IsHeld s j i (h i (rw (stop_node-channels s j) at lt)))

-- A discovery loses no sender: each is still kept under a key, or a stop has been sent with it.
pub sync-AreHeld : (d : Map ServiceNode) (s : ProbeServices) → AreHeld s → AreHeld (sync d s)
unfolding sync stop_nodes_probe
sync-AreHeld d s h =
    stop_all-AreHeld (start_nodes_probe d s)
      (keys_to_stop d (Map.keys (start_nodes_probe d s).probe_nodes)) (start-AreHeld d s h)
