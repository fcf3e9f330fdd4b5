-- ===== src/Probes/System/Coherent.antt =====
-- What holds of the probed nodes and their tasks, whatever happens in which order: src/probes/mod.rs.
use probes.Prelude.{
  ℕ, zero, suc, ◌≡◌, ◌≢◌, refl, ap, ◌∙◌, List, [], ◌∷◌, ◌++◌, map, length, modify, get_elem?,
  get_elem?-modify, get_elem?-append-cases, drop-append_length, In, All, All-In, some, Option-cases,
  true, ◌==◌, ==_iff, Bool-cases, inl, inr,
}
use probes.Prelude.Text.{Text}
use probes.Prelude.Map
use probes.Prelude.Map.{Map}
use probes.Memcached.Cursor.{Buf}
use probes.Consul.Node.{ConsulClient, ServiceNode}
use probes.Consul.Http.Keys.{IsKeyed}
use probes.Probes.Node.{World, Task, TryRecv, message, closed, empty, step, begin}
use probes.Probes.Node.Running.{is_running, step-node, step-is_running}
use probes.Probes.Services
use probes.Probes.Services.{Spawned, ProbeServices, sync}
use probes.Probes.Services.Spawning.{missing, tasks, sync-spawned}
use probes.Probes.Services.Channels.{Channels, sync-Channels}
use probes.Probes.Services.Stopping.{sync-stopped}
use probes.Probes.System.{
  probe_node, start_node_probe, System, Event, discovered, turned, boot, apply, run, MayTurn,
  MayHappen, Admissible,
}

-- Each task is the one that was spawned for its channel.
abbrev pub Aligned : List Task → List Spawned → Type 0
Aligned [] [] = Unit {0}
Aligned (t ∷ ts) (p ∷ ps) = (t.node ≡ probe_node p) × Aligned ts ps
Aligned _ _ = ⊥

pub record IsCoherent (s : System) : Type 0 where
  pub channels : Channels s.services
  pub aligned : Aligned s.tasks s.services.spawned
  -- a task whose channel has not been sent on is running
  pub running :
      (i : ℕ) (t : Task)
      → get_elem? s.tasks i ≡ some t
      → ¬ In i s.services.stopped
      → is_running t.phase ≡ true

pub Aligned-length : (ts : List Task) (ps : List Spawned) → Aligned ts ps → length ps ≡ length ts
Aligned-length [] [] h = refl
Aligned-length (t ∷ ts) (p ∷ ps) h = ap suc (Aligned-length ts ps h.1)
Aligned-length [] (p ∷ ps) h = absurd h
Aligned-length (t ∷ ts) [] h = absurd h

Aligned-append :
    (ts : List Task) (ps qs : List Spawned)
    → Aligned ts ps
    → Aligned (ts ++ map start_node_probe qs) (ps ++ qs)
unfolding start_node_probe begin
Aligned-append [] [] [] h = tt
Aligned-append [] [] (q ∷ qs) h = (refl, Aligned-append [] [] qs tt)
Aligned-append (t ∷ ts) (p ∷ ps) qs h = (h.0, Aligned-append ts ps qs h.1)
Aligned-append [] (p ∷ ps) qs h = absurd h
Aligned-append (t ∷ ts) [] qs h = absurd h

Aligned-modify :
    (src : Buf) (w : World) (i : ℕ) (ts : List Task) (ps : List Spawned)
    → Aligned ts ps
    → Aligned (modify ts i (step src w)) ps
Aligned-modify src w i [] ps h = h
Aligned-modify src w zero (t ∷ ts) (p ∷ ps) h = (step-node w src t ∙ h.0, h.1)
Aligned-modify src w (suc i) (t ∷ ts) (p ∷ ps) h = (h.0, Aligned-modify src w i ts ps h.1)
Aligned-modify src w zero (t ∷ ts) [] h = absurd h
Aligned-modify src w (suc i) (t ∷ ts) [] h = absurd h

-- The task behind a channel.
pub Aligned-get_elem? :
    (ts : List Task) (ps : List Spawned) (i : ℕ) (p : Spawned)
    → Aligned ts ps
    → get_elem? ps i ≡ some p
    → (t : Task) × (get_elem? ts i ≡ some t) × (t.node ≡ probe_node p)
Aligned-get_elem? [] [] i q h e = absurd (cc)
Aligned-get_elem? (t ∷ ts) (p ∷ ps) zero q h e = let same : p ≡ q = cc in (t, refl, rw same at h.0)
Aligned-get_elem? (t ∷ ts) (p ∷ ps) (suc i) q h e = Aligned-get_elem? ts ps i q h.1 e
Aligned-get_elem? [] (p ∷ ps) i q h e = absurd h
Aligned-get_elem? (t ∷ ts) [] i q h e = absurd h

abbrev IsRunning : Task → Type 0
IsRunning t = is_running t.phase ≡ true

started-IsRunning : (ps : List Spawned) → All IsRunning (map start_node_probe ps)
unfolding start_node_probe begin
started-IsRunning [] = tt
started-IsRunning (p ∷ ps) = (refl, started-IsRunning ps)

-- The tasks after a discovery: those before it, and the new ones.
pub discovered-tasks :
    (src : Buf) (d : Map ServiceNode) (s : System)
    → IsKeyed d
    → IsCoherent s
    → let new =
        tasks s.services.interval_check_ms s.services.channels (missing d s.services.probe_nodes) in
      ((apply src (discovered d) s).tasks ≡ s.tasks ++ map start_node_probe new)
      × ((sync d s.services).spawned ≡ s.services.spawned ++ new)
unfolding apply
discovered-tasks src d s h c =
    let more = sync-spawned d s.services h.distinct in
    let front : length s.services.spawned ≡ length s.tasks =
      Aligned-length s.tasks s.services.spawned c.aligned in
    (
      rw (
        more,
        drop-append_length s.services.spawned
            (tasks s.services.interval_check_ms s.services.channels
              (missing d s.services.probe_nodes))
            (length s.tasks) front,
      ),
      more,
    )

discovered-IsCoherent :
    (src : Buf) (d : Map ServiceNode) (s : System)
    → IsKeyed d
    → IsCoherent s
    → IsCoherent (apply src (discovered d) s)
discovered-IsCoherent src d s h c = record {
  channels = unfold apply in sync-Channels d s.services h c.channels;
  aligned =
      rw same (unfold apply in rw more (Aligned-append s.tasks s.services.spawned new c.aligned));
  running = λ i t e untold.
      elim (get_elem?-append-cases s.tasks (map start_node_probe new) i t (rw same at e)) [
        | inl old ↦
            c.running i t old (λ told. untold (unfold apply in sync-stopped d s.services i told))
        | inr begun ↦ All-In IsRunning (map start_node_probe new) (started-IsRunning new) begun
      ];
}
  where
    new : List Spawned
    new = tasks s.services.interval_check_ms s.services.channels (missing d s.services.probe_nodes)

    same : (apply src (discovered d) s).tasks ≡ s.tasks ++ map start_node_probe new
    same = (discovered-tasks src d s h c).0

    more : (sync d s.services).spawned ≡ s.services.spawned ++ new
    more = (discovered-tasks src d s h c).1

neither : (r : TryRecv) → r ≢ message → r ≢ closed → r ≡ empty
neither message m c = absurd (m refl)
neither closed m c = absurd (c refl)
neither empty m c = refl

-- A channel that has not been sent on is heard as empty.
quiet :
    (src : Buf) (s : System) (i : ℕ) (w : World)
    → MayTurn src s i w
    → ¬ In i s.services.stopped
    → (j : ℕ) → w.polls j ≡ empty
quiet src s i w may untold j = neither (w.polls j) (λ m. untold (may.told j m)) (may.open_channel j)

turned-IsCoherent :
    (src : Buf) (i : ℕ) (w : World) (s : System)
    → MayTurn src s i w
    → IsCoherent s
    → IsCoherent (apply src (turned i w) s)
unfolding apply
turned-IsCoherent src i w s may c = record {
  channels = c.channels;
  aligned = Aligned-modify src w i s.tasks s.services.spawned c.aligned;
  running = λ j t e untold. elim (Bool-cases (i == j)) [
    | inl here ↦ elim (Option-cases (get_elem? s.tasks j)) [
      | inl gone ↦ absurd (cc (rw (get_elem?-modify s.tasks i j (step src w), here, gone) at e))
      | inr (u, found) ↦
          let same : i ≡ j = (==_iff i j).0 here in
          let next : step src w u ≡ t =
            cc (rw (get_elem?-modify s.tasks i j (step src w), here, found) at e) in
          let hears : ¬ In i s.services.stopped = rw same untold in
          rw (← next) (
            step-is_running src w (quiet src s i w may hears) u (c.running j u found untold)
              (may.sound u (rw same found)))
    ]
    | inr other ↦ c.running j t (rw (get_elem?-modify s.tasks i j (step src w), other) at e) untold
  ];
}

pub apply-IsCoherent :
    (src : Buf) (e : Event) (s : System)
    → MayHappen src s e
    → IsCoherent s
    → IsCoherent (apply src e s)
apply-IsCoherent src (discovered d) s may c = discovered-IsCoherent src d s may c
apply-IsCoherent src (turned i w) s may c = turned-IsCoherent src i w s may c

-- Whatever happens, the probed nodes and their tasks stay coherent.
pub run-IsCoherent :
    (src : Buf) (es : List Event) (s : System)
    → Admissible src es s
    → IsCoherent s
    → IsCoherent (run src es s)
unfolding run
run-IsCoherent src [] s a c = c
run-IsCoherent src (e ∷ es) s a c =
    run-IsCoherent src es (apply src e s) a.1 (apply-IsCoherent src e s a.0 c)

pub boot-IsCoherent :
    (client : ConsulClient) (tag : Text) (interval : ℕ) → IsCoherent (boot client tag interval)
unfolding boot Services.new Map.get
boot-IsCoherent client tag interval = record {
  channels = record { counted = refl; served = λ k tx e. absurd (cc e); used = λ tx i. absurd i };
  aligned = tt;
  running = λ i t e untold. absurd (cc e);
}
