-- ===== src/Probes/System/Places.antt =====
-- What becomes of each task that src/probes/mod.rs spawns: it probes a node that is monitored, or it has
-- been told to stop.
use probes.Prelude.{
  ℕ, ◌≡◌, ◌<◌, refl, sym, ap, ◌∙◌, List, [], ◌∷◌, get_elem?, get_elem?-lt, In, Option, some, false,
  inl, inr, arith,
}
use probes.Prelude.Text.{Text}
use probes.Prelude.Map
use probes.Prelude.Map.{Map}
use probes.Memcached.Cursor.{Buf}
use probes.Consul.Node.{ConsulClient, ServiceNode}
use probes.Probes.Node.{Phase, connecting, probing, finished, crashed, hanging, Task}
use probes.Probes.Node.Heeding.{EndsSoon, active-EndsSoon}
use probes.Probes.Node.Running.{is_running}
use probes.Probes.Services
use probes.Probes.Services.{sync}
use probes.Probes.Services.Held.{AreHeld, sync-AreHeld}
use probes.Probes.System.{System, Event, discovered, turned, boot, apply, run, Admissible}
use probes.Probes.System.Coherent.{IsCoherent, Aligned-length, run-IsCoherent}
use probes.Probes.System.Refines.{running_node, at_sender, view}

-- The place of a task, which holds the receiver of channel `i`, where `f` says what is to be probed.
pub data Place (src : Buf) (s : System) (f : Text → Option ServiceNode) (i : ℕ) (t : Task)
    : Type 0 where
  -- it has returned, or panicked
  ended : is_running t.phase ≡ false → Place src s f i t
  -- it runs, for the node that is to be probed under the key of its sender, which has not been used
  monitored :
      (k : Text) (n : ServiceNode)
      → Map.get k s.services.probe_nodes ≡ some i
      → ¬ In i s.services.stopped
      → f k ≡ some n
      → running_node (some t) ≡ some n
      → Place src s f i t
  -- it has been sent a stop, and two turns in which it hears the stop finish it
  leaves : In i s.services.stopped → EndsSoon src t → Place src s f i t
  -- it has been sent a stop, and hangs in an attempt to connect
  hangs : In i s.services.stopped → t.phase ≡ hanging → Place src s f i t

-- The nodes of `f` are probed under their keys, and every other task that still runs has been told to
-- stop, and stops once it hears it.
pub record ProbesExactly (src : Buf) (s : System) (f : Text → Option ServiceNode) : Type 0 where
  pub under_keys : view s ≡ f
  pub places : (i : ℕ) (t : Task) → get_elem? s.tasks i ≡ some t → Place src s f i t

module _ (src : Buf) (s : System) (f : Text → Option ServiceNode) (i : ℕ) (t : Task) where
  told-Place : (p : Phase) → t.phase ≡ p → In i s.services.stopped → Place src s f i t
  told-Place connecting e told = leaves told (active-EndsSoon src t (rw e tt))
  told-Place (probing c) e told = leaves told (active-EndsSoon src t (rw e tt))
  told-Place finished e told = ended (rw e refl)
  told-Place crashed e told = ended (rw e refl)
  told-Place hanging e told = hangs told e

  kept-Place :
      (k : Text)
      → IsCoherent s
      → view s ≡ f
      → get_elem? s.tasks i ≡ some t
      → Map.get k s.services.probe_nodes ≡ some i
      → Place src s f i t
  kept-Place k c same there kept =
      let unused : ¬ In i s.services.stopped = (c.channels.served k i kept).unused in
      let probes : running_node (some t) ≡ some (node t) =
        unfold running_node in rw (c.running i t there unused) refl in
      let seen : view s k ≡ running_node (some t) =
        unfold view in rw (kept, at_sender) (ap running_node there) in
      monitored k (node t) kept unused
        (sym (ap (λ (g : Text → Option ServiceNode). g k) same) ∙ seen ∙ probes) probes
    where
      node : Task → ServiceNode
      node t = record { service_name = t.node.cluster_name; ip = t.node.ip; port = t.node.port }

-- In a coherent system that has lost no sender, each task has its place.
pub coherent-ProbesExactly :
    (src : Buf) (s : System) (f : Text → Option ServiceNode)
    → IsCoherent s
    → AreHeld s.services
    → view s ≡ f
    → ProbesExactly src s f
coherent-ProbesExactly src s f c h same = record {
  under_keys = same;
  places = λ i t there.
      let known : i < s.services.channels = omega (
        arith,
        c.channels.counted,
        Aligned-length s.tasks s.services.spawned c.aligned,
        get_elem?-lt s.tasks i there,
      ) in
      elim (h i known) [
        | inl (k, kept) ↦ kept-Place src s f i t k c same there kept
        | inr told ↦ told-Place src s f i t t.phase refl told
      ];
}

apply-AreHeld :
    (src : Buf) (e : Event) (s : System) → AreHeld s.services → AreHeld (apply src e s).services
unfolding apply
apply-AreHeld src (discovered d) s h = sync-AreHeld d s.services h
apply-AreHeld src (turned i w) s h = h

run-AreHeld :
    (src : Buf) (es : List Event) (s : System)
    → AreHeld s.services
    → AreHeld (run src es s).services
unfolding run
run-AreHeld src [] s h = h
run-AreHeld src (e ∷ es) s h = run-AreHeld src es (apply src e s) (apply-AreHeld src e s h)

pub boot-AreHeld :
    (client : ConsulClient) (tag : Text) (interval : ℕ)
    → AreHeld (boot client tag interval).services
unfolding boot Services.new
boot-AreHeld client tag interval i lt = absurd (omega arith)

-- Whatever happens, a system that probes under its keys what `f` says has a place for each task.
pub run-ProbesExactly :
    (src : Buf) (es : List Event) (s : System) (f : Text → Option ServiceNode)
    → Admissible src es s
    → IsCoherent s
    → AreHeld s.services
    → view (run src es s) ≡ f
    → ProbesExactly src (run src es s) f
run-ProbesExactly src es s f a c h same =
    coherent-ProbesExactly src (run src es s) f (run-IsCoherent src es s a c)
      (run-AreHeld src es s h) same
