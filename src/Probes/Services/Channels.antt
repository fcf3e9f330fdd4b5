-- ===== src/Probes/Services/Channels.antt =====
-- Which task is behind a monitored key: src/probes/mod.rs.
use probes.Prelude.{
  ℕ, ◌≡◌, ◌<◌, sym, ap, ◌∙◌, List, [], ◌∷◌, ◌++◌, length, get_elem?, get_elem?-lt,
  get_elem?-append_left, get_elem?-append_self, length-append, In, In-append-cases, some,
  Option-cases, Bool-cases, inl, inr, arith,
}
use probes.Prelude.Bytes.{bytes_eq, bytes_eq→eq, bytes_eq_refl}
use probes.Prelude.Map
use probes.Prelude.Map.{Map, contains_key, is_some, Distinct, get-insert, get-remove}
use probes.Prelude.Text.{Text}
use probes.Consul.Node.{ServiceNode, to_string}
use probes.Consul.Http.Keys.{IsKeyed}
use probes.Probes.Services.{
  Spawned, ProbeServices, keys_to_stop, stop_sender, stop_node, stop_all, stop_nodes_probe,
  spawn_node, start_node, start_nodes_probe, sync,
}

-- Behind a key whose sender is kept stands a task for a node with this key, and its channel has not been
-- sent on.
pub record IsServed (s : ProbeServices) (k : Text) (tx : ℕ) : Type 0 where
  pub task : Spawned
  pub spawned : get_elem? s.spawned tx ≡ some task
  pub own_key : to_string task.service_node ≡ k
  pub unused : ¬ In tx s.stopped

pub record Channels (s : ProbeServices) : Type 0 where
  pub counted : length s.spawned ≡ s.channels
  pub served : (k : Text) (tx : ℕ) → Map.get k s.probe_nodes ≡ some tx → IsServed s k tx
  pub used : (tx : ℕ) → In tx s.stopped → tx < s.channels

pub IsKeyed-tail :
    (k : Text) (n : ServiceNode) (d : Map ServiceNode) → IsKeyed ((k, n) ∷ d) → IsKeyed d
unfolding Map.get
IsKeyed-tail k n d h = record {
  distinct = h.distinct.1;
  own_key = λ j x e. ground (arith, h.own_key j x, h.distinct.0, bytes_eq→eq k j);
}

pub IsKeyed-head :
    (k : Text) (n : ServiceNode) (d : Map ServiceNode) → IsKeyed ((k, n) ∷ d) → to_string n ≡ k
unfolding Map.get
IsKeyed-head k n d h = h.own_key k n (rw (bytes_eq_refl k))

-- The task that `spawn_node` spawns.
abbrev pub new_task : ServiceNode → ProbeServices → Spawned
new_task n s = record { service_node = n; interval = s.interval_check_ms; receiver = s.channels }

spawn_node-IsServed_self :
    (k : Text) (n : ServiceNode) (s : ProbeServices)
    → to_string n ≡ k
    → Channels s
    → IsServed (spawn_node k n s) k s.channels
unfolding spawn_node
spawn_node-IsServed_self k n s own c = record {
  task = new_task n s;
  spawned = get_elem?-append_self s.spawned [] (new_task n s) s.channels c.counted;
  own_key = own;
  unused = λ i. absurd (omega (arith, c.used s.channels i));
}

-- A task that was spawned before is where it was.
spawn_node-IsServed :
    (k j : Text) (n : ServiceNode) (s : ProbeServices) (tx : ℕ)
    → IsServed s j tx
    → IsServed (spawn_node k n s) j tx
unfolding spawn_node
spawn_node-IsServed k j n s tx v = record {
  task = v.task;
  spawned =
      get_elem?-append_left s.spawned (new_task n s ∷ []) tx (get_elem?-lt s.spawned tx v.spawned)
      ∙ v.spawned;
  own_key = v.own_key;
  unused = v.unused;
}

spawn_node-Channels :
    (k : Text) (n : ServiceNode) (s : ProbeServices)
    → to_string n ≡ k
    → Channels s
    → Channels (spawn_node k n s)
unfolding spawn_node
spawn_node-Channels k n s own c = record {
  counted = omega (arith, c.counted, length-append s.spawned (new_task n s ∷ []));
  served = served;
  used = λ tx i. omega (arith, c.used tx i);
}
  where
    served :
        (j : Text) (tx : ℕ)
        → Map.get j (Map.insert k s.channels s.probe_nodes) ≡ some tx
        → IsServed (spawn_node k n s) j tx
    served j tx e = elim (Bool-cases (bytes_eq k j)) [
      | inl same ↦
          let new : s.channels ≡ tx =
            cc (rw (get-insert k j s.channels s.probe_nodes, same) at e) in
          rw (← new, ← (bytes_eq→eq k j same)) (spawn_node-IsServed_self k n s own c)
      | inr other ↦
          spawn_node-IsServed k j n s tx
            (c.served j tx (rw (get-insert k j s.channels s.probe_nodes, other) at e))
    ]

pub start_node-Channels :
    (k : Text) (n : ServiceNode) (s : ProbeServices)
    → to_string n ≡ k
    → Channels s
    → Channels (start_node k n s)
unfolding start_node
start_node-Channels k n s own c = elim (Bool-cases (contains_key k s.probe_nodes)) [
  | inl there ↦ rw there c
  | inr missing ↦ rw missing (spawn_node-Channels k n s own c)
]

start-Channels :
    (d : Map ServiceNode) (s : ProbeServices)
    → IsKeyed d
    → Channels s
    → Channels (start_nodes_probe d s)
unfolding start_nodes_probe
start-Channels [] s h c = c
start-Channels ((k, n) ∷ d) s h c =
    start-Channels d (start_node k n s) (IsKeyed-tail k n d h)
      (start_node-Channels k n s (IsKeyed-head k n d h) c)

-- Two keys are not served by one task.
one_key : (s : ProbeServices) (j k : Text) (tx : ℕ) → IsServed s j tx → IsServed s k tx → j ≡ k
one_key s j k tx v w =
    let same : v.task ≡ w.task = cc (v.spawned, w.spawned) in
    sym v.own_key ∙ ap (λ (t : Spawned). to_string t.service_node) same ∙ w.own_key

IsServed-lt :
    (s : ProbeServices) (k : Text) (tx : ℕ) → Channels s → IsServed s k tx → tx < s.channels
IsServed-lt s k tx c v = omega (arith, c.counted, get_elem?-lt s.spawned tx v.spawned)

stop_node-Channels : (s : ProbeServices) (k : Text) → Channels s → Channels (stop_node s k)
unfolding stop_node
stop_node-Channels s k c = elim (Option-cases (Map.get k s.probe_nodes)) [
  | inl e ↦ rw (e, stop_sender) c
  | inr (tx, e) ↦
      rw (e, stop_sender) (record { counted = c.counted; served = served tx e; used = used tx e })
]
  where
    used :
        (tx : ℕ)
        → Map.get k s.probe_nodes ≡ some tx
        → (ty : ℕ) → In ty (s.stopped ++ tx ∷ [])
        → ty < s.channels
    used tx e ty i = elim (In-append-cases ty s.stopped (tx ∷ []) i) [
      | inl old ↦ c.used ty old
      | inr (inl same) ↦ rw same (IsServed-lt s k tx c (c.served k tx e))
      | inr (inr none_left) ↦ absurd none_left
    ]

    served :
        (tx : ℕ)
        → Map.get k s.probe_nodes ≡ some tx
        → (j : Text) (ty : ℕ) → Map.get j (Map.remove k s.probe_nodes) ≡ some ty
        → IsServed
            (record s { probe_nodes = Map.remove k s.probe_nodes; stopped = s.stopped ++ tx ∷ [] })
            j
            ty
    served tx e j ty f = elim (Bool-cases (bytes_eq k j)) [
      | inl same ↦ absurd (cc (rw (get-remove k j s.probe_nodes, same) at f))
      | inr other ↦
          let v = c.served j ty (rw (get-remove k j s.probe_nodes, other) at f) in
          record {
            task = v.task;
            spawned = v.spawned;
            own_key = v.own_key;
            unused = λ i. elim (In-append-cases ty s.stopped (tx ∷ []) i) [
              | inl old ↦ v.unused old
              | inr (inl same) ↦
                  let key : j ≡ k = one_key s j k tx (rw same at v) (c.served k tx e) in
                  cc (other, bytes_eq_refl k, key)
              | inr (inr none_left) ↦ none_left
            ];
          }
    ]

stop_all-Channels : (s : ProbeServices) (ks : List Text) → Channels s → Channels (stop_all s ks)
unfolding stop_all
stop_all-Channels s [] c = c
stop_all-Channels s (k ∷ ks) c = stop_all-Channels (stop_node s k) ks (stop_node-Channels s k c)

pub sync-Channels :
    (d : Map ServiceNode) (s : ProbeServices) → IsKeyed d → Channels s → Channels (sync d s)
unfolding sync stop_nodes_probe
sync-Channels d s h c =
    stop_all-Channels (start_nodes_probe d s)
      (keys_to_stop d (Map.keys (start_nodes_probe d s).probe_nodes)) (start-Channels d s h c)
