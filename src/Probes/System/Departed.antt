-- ===== src/Probes/System/Departed.antt =====
-- What becomes of the task of a node that is gone: src/probes/mod.rs.
use probes.Prelude.{
  ℕ, zero, suc, ◌≡◌, ◌≢◌, ◌≤◌, refl, sym, subst, ap, ◌∙◌, List, [], ◌∷◌, map, length, drop, modify,
  get_elem?, get_elem?-modify, get_elem?-append_left, get_elem?-lt, All, All-In, All-append,
  get_elem?-In, In, some, true, false, ◌==◌, ==_iff, if◌then◌else◌, Bool-cases, inl, inr,
}
use probes.Prelude.Text.{Text}
use probes.Prelude.Map
use probes.Prelude.Map.{Map, contains_key}
use probes.Metrics.{SeriesVec}
use probes.Memcached.Cursor.{Buf}
use probes.Memcached.Client.{status_code}
use probes.Consul.Node as Service
use probes.Consul.Node.{ConsulClient, ServiceNode}
use probes.Probes.Node
use probes.Probes.Node.{
  ProbeNode, World, Task, Phase, connecting, probing, finished, crashed, hanging, step, begin,
}
use probes.Probes.Node.Running.{is_running, step-node}
use probes.Probes.Node.Lifecycle.{IsActive, ToldToStop, Connects, IsSafe, rank, run-stops}
use probes.Probes.Node.Cleanup.{IsType}
use probes.Probes.Node.Tidy.{Tidy, run-Tidy}
use probes.Probes.Node.Removal.{Tidy-removed}
use probes.Probes.Node.Series.{replay}
use probes.Probes.Services.{Spawned, sync}
use probes.Probes.Services.Stopping.{sync-sends}
use probes.Probes.System.{
  probe_node, start_node_probe, System, Event, discovered, turned, boot, apply, run, Admissible,
}
use probes.Probes.System.Coherent.{IsCoherent, boot-IsCoherent, Aligned-get_elem?, run-IsCoherent}

-- Every task is tidy for its own node.
abbrev AreTidy : List Task → Type 0
AreTidy = All (λ (t : Task). Tidy t.node t)

step-Tidy :
    (src : Buf) (w : World) (t : Task) → Tidy t.node t → Tidy (step src w t).node (step src w t)
step-Tidy src w t h =
    subst (λ n. Tidy n (step src w t)) (sym (step-node w src t))
      (unfold Node.run in run-Tidy src w t.node 1 t h)

modify-AreTidy :
    (src : Buf) (w : World) (ts : List Task) (i : ℕ)
    → AreTidy ts
    → AreTidy (modify ts i (step src w))
modify-AreTidy src w [] i h = tt
modify-AreTidy src w (t ∷ ts) zero h = (step-Tidy src w t h.0, h.1)
modify-AreTidy src w (t ∷ ts) (suc i) h = (h.0, modify-AreTidy src w ts i h.1)

started-AreTidy : (ps : List Spawned) → AreTidy (map start_node_probe ps)
unfolding start_node_probe begin
started-AreTidy [] = tt
started-AreTidy (p ∷ ps) = (record { same_node = refl; tidy = tt }, started-AreTidy ps)

apply-AreTidy :
    (src : Buf) (e : Event) (s : System) → AreTidy s.tasks → AreTidy (apply src e s).tasks
unfolding apply
apply-AreTidy src (discovered d) s h =
    All-append (λ (t : Task). Tidy t.node t) s.tasks
      (map start_node_probe (drop (length s.tasks) (sync d s.services).spawned)) h
      (started-AreTidy (drop (length s.tasks) (sync d s.services).spawned))
apply-AreTidy src (turned i w) s h = modify-AreTidy src w s.tasks i h

run-AreTidy :
    (src : Buf) (es : List Event) (s : System) → AreTidy s.tasks → AreTidy (run src es s).tasks
unfolding run
run-AreTidy src [] s h = h
run-AreTidy src (e ∷ es) s h = run-AreTidy src es (apply src e s) (apply-AreTidy src e s h)

-- How many turns the task of this channel makes.
abbrev pub turns_of : ℕ → List Event → ℕ
turns_of tx [] = 0
turns_of tx (discovered d ∷ es) = turns_of tx es
turns_of tx (turned i w ∷ es) = let rest = turns_of tx es in if i == tx then suc rest else rest

-- The task of this channel gets its answers from one world.
abbrev pub InWorld : ℕ → World → List Event → Type 0
InWorld tx w [] = Unit {0}
InWorld tx w (discovered d ∷ es) = InWorld tx w es
InWorld tx w (turned i w' ∷ es) = (i ≡ tx → w' ≡ w) × InWorld tx w es

-- Whatever happens beside it, a task runs as it does alone.
run-turns_of :
    (src : Buf) (w : World) (tx : ℕ) (es : List Event) (s : System) (t : Task)
    → InWorld tx w es
    → get_elem? s.tasks tx ≡ some t
    → get_elem? (run src es s).tasks tx ≡ some (Node.run src w (turns_of tx es) t)
unfolding run apply Node.run
run-turns_of src w tx [] s t h e = e
run-turns_of src w tx (discovered d ∷ es) s t h e =
    run-turns_of src w tx es (apply src (discovered d) s) t h (
      get_elem?-append_left s.tasks
        (map start_node_probe (drop (length s.tasks) (sync d s.services).spawned)) tx
        (get_elem?-lt s.tasks tx e)
      ∙ e)
run-turns_of src w tx (turned i w' ∷ es) s t h e = elim (Bool-cases (i == tx)) [
  | inl here ↦
      let same : w' ≡ w = h.0 ((==_iff i tx).0 here) in
      rw here (
        run-turns_of src w tx es (apply src (turned i w') s) (step src w t) h.1
          (get_elem?-modify s.tasks i tx (step src w') ∙ rw (here, e, same) refl))
  | inr other ↦ rw other (
      run-turns_of src w tx es (apply src (turned i w') s) t h.1
        (get_elem?-modify s.tasks i tx (step src w') ∙ rw other e))
]

active : (p : Phase) → is_running p ≡ true → p ≢ hanging → IsActive p
active connecting r h = tt
active (probing c) r h = tt
active finished r h = absurd (cc)
active crashed r h = absurd (cc)
active hanging r h = absurd (h refl)

boot-AreTidy :
    (client : ConsulClient) (tag : Text) (interval : ℕ) → AreTidy (boot client tag interval).tasks
unfolding boot
boot-AreTidy client tag interval = tt

to_string-probe_node :
    (p : Spawned) → Node.to_string (probe_node p) ≡ Service.to_string p.service_node
unfolding Node.to_string Node.new Service.to_string
to_string-probe_node p = refl

-- The task behind a channel that is kept under a key.
kept_task :
    (s : System) (k : Text) (tx : ℕ) (t : Task)
    → IsCoherent s
    → Map.get k s.services.probe_nodes ≡ some tx
    → get_elem? s.tasks tx ≡ some t
    → (is_running t.phase ≡ true) × (Node.to_string t.node ≡ k)
kept_task s k tx t c kept there =
    let served = c.channels.served k tx kept in
    let (t', found, node) =
      Aligned-get_elem? s.tasks s.services.spawned tx served.task c.aligned served.spawned in
    let same : t ≡ t' = cc in
    (
      c.running tx t there served.unused,
      ap (λ (x : Task). Node.to_string x.node) same
          ∙ ap Node.to_string node
          ∙ to_string-probe_node served.task
          ∙ served.own_key,
    )

module _ (vec : SeriesVec) where
  open vec use {Vec, count}

  -- A node that is gone is forgotten. From the start and whatever has happened, let a discovery lack a key that
  -- is monitored. Then the channel of the task for the node with this key is sent a stop, and whatever
  -- discoveries and turns of tasks follow, once the task has made as many turns as it may have still to
  -- come, it has finished, and the calls that it has made on the metrics leave 0 in the request counters of
  -- its cluster and socket, for every status of the table, for set and get, whatever they were. The
  -- conditions: before the discovery, discoveries have each node under its own key, a task hears of a stop
  -- only if one was sent on its channel, which is not closed otherwise, and none of its probes panics; the
  -- task does not hang in an attempt to connect; and its turns after the discovery go by one row of answers in
  -- which it hears the stop from some look on, every attempt to connect is answered, and none of its probes
  -- panics.
  pub run-forgets :
      (src : Buf) (before after : List Event) (s : System) (client : ConsulClient) (tag : Text)
      (interval : ℕ) (d : Map ServiceNode) (k : Text) (tx m : ℕ) (w : World) (t : Task) (v : Vec)
      (code : ℕ) (status cmd_type : Text)
      → Admissible src before (boot client tag interval)
      → run src before (boot client tag interval) ≡ s
      → Map.get k s.services.probe_nodes ≡ some tx
      → contains_key k d ≡ false
      → get_elem? s.tasks tx ≡ some t
      → t.phase ≢ hanging
      → ToldToStop w m
      → Connects w
      → IsSafe src w t
      → InWorld tx w after
      → rank m t ≤ turns_of tx after
      → status_code code ≡ some status
      → IsType cmd_type
      → In tx (apply src (discovered d) s).services.stopped
        × (Node.to_string t.node ≡ k)
        × ((t' : Task) × (get_elem? (run src (discovered d ∷ after) s).tasks tx ≡ some t')
            × (t'.phase ≡ finished)
            × (count
                  (replay vec t'.calls v)
                  (t.node.cluster_name ∷ t.node.socket ∷ status ∷ cmd_type ∷ [])
                ≡ 0))
  run-forgets src before after s client tag interval d k tx m w t v code status cmd_type may ran
        kept gone there answered told connects safe one_world enough known kind =
      let start : System = boot client tag interval in
      let c : IsCoherent s =
        subst IsCoherent ran
          (run-IsCoherent src before start may (boot-IsCoherent client tag interval)) in
      let (going, key) = kept_task s k tx t c kept there in
      let tidy : Tidy t.node t =
        All-In (λ (x : Task). Tidy x.node x) s.tasks
          (subst (λ (x : System). AreTidy x.tasks) ran
            (run-AreTidy src before start (boot-AreTidy client tag interval)))
          (get_elem?-In s.tasks tx t there) in
      let done : (Node.run src w (turns_of tx after) t).phase ≡ finished =
        run-stops src w m told connects (turns_of tx after) t (active t.phase going answered) safe
          enough in
      (
        unfold apply in sync-sends d s.services k tx kept gone,
        key,
        (
          Node.run src w (turns_of tx after) t,
          run-turns_of src w tx (discovered d ∷ after) s t one_world there,
          done,
          Tidy-removed vec t.node (Node.run src w (turns_of tx after) t) v code status cmd_type
              (run-Tidy src w t.node (turns_of tx after) t tidy) done known kind,
        ),
      )
