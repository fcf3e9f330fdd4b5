-- ===== src/Probes/System/Tame.antt =====
-- Servers with which no task of src/probes/mod.rs panics, whatever happens in which order.
use probes.Prelude.{
  ℕ, zero, suc, ◌≡◌, ◌≢◌, List, [], ◌∷◌, map, length, drop, modify, get_elem?-In, All, All-In,
  All-append, In,
}
use probes.Prelude.Map.{Map}
use probes.Memcached.Cursor.{Buf}
use probes.Consul.Node.{ServiceNode}
use probes.Probes.Node.{World, Task, message, closed, crashed, step, begin}
use probes.Probes.Node.Safe.{IsTame, step-safe}
use probes.Probes.Node.Steady.{IdlePhase, step-IdlePhase}
use probes.Probes.Services.{Spawned, sync}
use probes.Probes.System.{
  start_node_probe, System, Event, discovered, turned, apply, MayTurn, Admissible,
}
use probes.Probes.System.Latest.{Plain}

-- What may happen to a task: it hears of a stop only if one was sent on its channel, of whose sender
-- nobody disposes otherwise; and its server answers each request with one response with a status of the
-- table, or less.
pub record TameTurn (s : System) (i : ℕ) (w : World) : Type 0 where
  pub told : (j : ℕ) → w.polls j ≡ message → In i s.services.stopped
  pub open_channel : (j : ℕ) → w.polls j ≢ closed
  pub tame : IsTame w

abbrev pub AreTame : Buf → List Event → System → Type 0
AreTame src [] s = Unit {0}
AreTame src (discovered d ∷ es) s = AreTame src es (apply src (discovered d) s)
AreTame src (turned i w ∷ es) s = TameTurn s i w × AreTame src es (apply src (turned i w) s)

-- The task has nothing unread, and has not panicked.
pub record IsIdleTask (t : Task) : Type 0 where
  pub idle : IdlePhase t.phase
  pub safe : t.phase ≢ crashed

abbrev pub AreIdle : List Task → Type 0
AreIdle = All IsIdleTask

started-AreIdle : (ps : List Spawned) → AreIdle (map start_node_probe ps)
unfolding start_node_probe begin
started-AreIdle [] = tt
started-AreIdle (p ∷ ps) = (record { idle = tt; safe = cc }, started-AreIdle ps)

modify-AreIdle :
    (src : Buf) (w : World) (ts : List Task) (i : ℕ)
    → IsTame w
    → AreIdle ts
    → AreIdle (modify ts i (step src w))
modify-AreIdle src w [] i tame h = tt
modify-AreIdle src w (t ∷ ts) zero tame h = (
  record {
    idle = step-IdlePhase src w tame.polite t h.0.idle;
    safe = step-safe src w t tame h.0.idle h.0.safe;
  },
  h.1,
)
modify-AreIdle src w (t ∷ ts) (suc i) tame h = (h.0, modify-AreIdle src w ts i tame h.1)

discovered-AreIdle :
    (src : Buf) (s : System) (d : Map ServiceNode)
    → AreIdle s.tasks
    → AreIdle (apply src (discovered d) s).tasks
unfolding apply
discovered-AreIdle src s d h =
    All-append IsIdleTask s.tasks
      (map start_node_probe (drop (length s.tasks) (sync d s.services).spawned)) h
      (started-AreIdle (drop (length s.tasks) (sync d s.services).spawned))

turned-AreIdle :
    (src : Buf) (s : System) (i : ℕ) (w : World)
    → IsTame w
    → AreIdle s.tasks
    → AreIdle (apply src (turned i w) s).tasks
unfolding apply
turned-AreIdle src s i w tame h = modify-AreIdle src w s.tasks i tame h

TameTurn-MayTurn :
    (src : Buf) (s : System) (i : ℕ) (w : World)
    → AreIdle s.tasks
    → TameTurn s i w
    → MayTurn src s i w
TameTurn-MayTurn src s i w h may = record {
  told = may.told;
  open_channel = may.open_channel;
  sound = λ t there.
      let here : IsIdleTask t = All-In IsIdleTask s.tasks h (get_elem?-In s.tasks i t there) in
      step-safe src w t may.tame here.idle here.safe;
}

-- What is so of the servers alone is enough for what may happen.
pub AreTame-Admissible :
    (src : Buf) (es : List Event) (s : System)
    → AreIdle s.tasks
    → Plain es
    → AreTame src es s
    → Admissible src es s
AreTame-Admissible src [] s h p tame = tt
AreTame-Admissible src (discovered d ∷ es) s h p tame = (
  p.0.keyed,
  AreTame-Admissible src es (apply src (discovered d) s) (discovered-AreIdle src s d h) p.1 tame,
)
AreTame-Admissible src (turned i w ∷ es) s h p tame = (
  TameTurn-MayTurn src s i w h tame.0,
  AreTame-Admissible src es (apply src (turned i w) s) (turned-AreIdle src s i w tame.0.tame h) p
      tame.1,
)
