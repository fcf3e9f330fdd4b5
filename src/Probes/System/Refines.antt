-- ===== src/Probes/System/Refines.antt =====
-- The probed nodes and their tasks, seen as a table of the nodes that are probed: src/probes/mod.rs.
use probes.Prelude.{
  ℕ, ◌≡◌, refl, sym, ap, ◌∙◌, List, [], ◌∷◌, get_elem?, In, Option, none, some, Option-cases, true,
  if◌then◌else◌, inl, inr, arith,
}
use mathlib.Core.Path.{fun_ext}
use probes.Prelude.Text.{Text}
use probes.Prelude.Map
use probes.Prelude.Map.{Map, contains_key, is_some, Distinct}
use probes.Memcached.Cursor.{Buf}
use probes.Consul.Node.{ConsulClient, ServiceNode}
use probes.Consul.Http.Keys.{IsKeyed}
use probes.Probes.Node
use probes.Probes.Node.{ProbeNode, World, Task}
use probes.Probes.Node.Running.{is_running}
use probes.Probes.Services
use probes.Probes.Services.{Spawned, ProbeServices, sync}
use probes.Probes.Services.Sync.{sync-contains}
use probes.Probes.Services.Probed.{IsProbed, sync-IsProbed_old, sync-IsProbed_new}
use probes.Probes.System.{
  System, Event, discovered, turned, boot, apply, run, MayTurn, MayHappen, Admissible,
}
use probes.Probes.System.Coherent.{IsCoherent, Aligned-get_elem?, apply-IsCoherent}

-- The node that a task probes, while it runs.
unfoldable pub running_node : Option Task → Option ServiceNode
running_node none = none
running_node (some t) =
    if is_running t.phase
    then some (record { service_name = t.node.cluster_name; ip = t.node.ip; port = t.node.port })
    else none

pub at_sender : List Task → Option ℕ → Option ServiceNode
unfolding running_node
at_sender tasks none = none
at_sender tasks (some tx) = running_node (get_elem? tasks tx)

-- Under each key, the node that the task behind its sender probes.
unfoldable pub view : System → Text → Option ServiceNode
unfolding at_sender
view s k = at_sender s.tasks (Map.get k s.services.probe_nodes)

abbrev keep_or : Option ServiceNode → ServiceNode → ServiceNode
keep_or (some old) new = old
keep_or none new = new

-- What a discovery means: the nodes that are discovered, and of these the ones known before stay as they
-- are. A turn of a task means nothing.
unfoldable pub meaning : Event → (Text → Option ServiceNode) → Text → Option ServiceNode
meaning (discovered d) f k = elim (Map.get k d) [ none ↦ none | some n ↦ some (keep_or (f k) n) ]
meaning (turned i w) f k = f k

unfoldable pub replay : List Event → (Text → Option ServiceNode) → Text → Option ServiceNode
replay [] f = f
replay (e ∷ es) f = replay es (meaning e f)

view-none : (s : System) (k : Text) → Map.get k s.services.probe_nodes ≡ none → view s k ≡ none
unfolding view
view-none s k e = rw (e, at_sender)

view-IsProbed :
    (s : System) (k : Text) (n : ServiceNode)
    → IsCoherent s
    → IsProbed s.services k n
    → view s k ≡ some n
unfolding view Node.new
view-IsProbed s k n c p =
    let (t, found, node) =
      Aligned-get_elem? s.tasks s.services.spawned p.sender p.task c.aligned p.spawned in
    let unused : ¬ In p.sender s.services.stopped = (c.channels.served k p.sender p.kept).unused in
    let going : is_running t.phase ≡ true = c.running p.sender t found unused in
    rw (p.kept, at_sender) (rw (found, running_node) (rw (going, node) (ap some p.node)))

-- Under a key whose sender is kept, some node is probed.
probed :
    (s : System) (k : Text) (tx : ℕ)
    → IsCoherent s
    → Map.get k s.services.probe_nodes ≡ some tx
    → (n : ServiceNode) × IsProbed s.services k n
probed s k tx c e =
    let v = c.channels.served k tx e in
    (
      v.task.service_node,
      record { sender = tx; task = v.task; kept = e; spawned = v.spawned; node = refl },
    )

module _ (src : Buf) (s : System) (c : IsCoherent s) where
  view-discovered :
      (d : Map ServiceNode) (k : Text)
      → IsKeyed d
      → view (apply src (discovered d) s) k ≡ meaning (discovered d) (view s) k
  unfolding meaning contains_key
  view-discovered d k h = elim (Option-cases (Map.get k d)) [
    | inl gone ↦
        let lost : Map.get k (apply src (discovered d) s).services.probe_nodes ≡ none =
          unfold apply in ground (arith, sync-contains d s.services k) in
        view-none (apply src (discovered d) s) k lost ∙ rw (gone, meaning)
    | inr (n, there) ↦ elim (Option-cases (Map.get k s.services.probe_nodes)) [
      | inl new ↦
          let probed_new : IsProbed (sync d s.services) k n =
            sync-IsProbed_new d s.services k n h c.channels new there in
          view-IsProbed (apply src (discovered d) s) k n (apply-IsCoherent src (discovered d) s h c)
            (unfold apply in probed_new)
          ∙ rw (there, view-none s k new, meaning)
      | inr (tx, e) ↦
          let (m, old) = probed s k tx c e in
          let still : IsProbed (sync d s.services) k m =
            sync-IsProbed_old d s.services k m (rw there) old in
          view-IsProbed (apply src (discovered d) s) k m (apply-IsCoherent src (discovered d) s h c)
            (unfold apply in still)
          ∙ rw (there, view-IsProbed s k m c old, meaning)
    ]
  ]

  view-turned :
      (i : ℕ) (w : World) (k : Text)
      → MayTurn src s i w
      → view (apply src (turned i w) s) k ≡ view s k
  view-turned i w k may = elim (Option-cases (Map.get k s.services.probe_nodes)) [
    | inl none_there ↦
        view-none (apply src (turned i w) s) k (unfold apply in none_there)
        ∙ sym (view-none s k none_there)
    | inr (tx, e) ↦
        let (n, p) = probed s k tx c e in
        view-IsProbed (apply src (turned i w) s) k n (apply-IsCoherent src (turned i w) s may c)
          (unfold apply in p)
        ∙ sym (view-IsProbed s k n c p)
  ]

apply_refines :
    (src : Buf) (e : Event) (s : System)
    → IsCoherent s
    → MayHappen src s e
    → view (apply src e s) ≡ meaning e (view s)
unfolding meaning
apply_refines src (discovered d) s c h = fun_ext λ k. view-discovered src s c d k h
apply_refines src (turned i w) s c h = fun_ext λ k. view-turned src s c i w k h

-- The code implements the table: from any coherent state, whatever discoveries and turns of tasks follow,
-- and in whatever order, the nodes that running tasks probe under the keys are those of the table that
-- keeps what is still discovered as it is, drops what is not, and adds what is new. The conditions: in
-- the discoveries each node stands under its own key; a task hears of a stop only if one was sent on its
-- channel, which is not closed otherwise; and no probe that a task makes panics.
pub run_refines :
    (src : Buf) (es : List Event) (s : System)
    → IsCoherent s
    → Admissible src es s
    → view (run src es s) ≡ replay es (view s)
unfolding run replay
run_refines src [] s c a = refl
run_refines src (e ∷ es) s c a =
    run_refines src es (apply src e s) (apply-IsCoherent src e s a.0 c) a.1
    ∙ ap (replay es) (apply_refines src e s c a.0)

pub view-boot :
    (client : ConsulClient) (tag : Text) (interval : ℕ)
    → view (boot client tag interval) ≡ (λ k. none)
unfolding boot Services.new view Map.get at_sender
view-boot client tag interval = refl
