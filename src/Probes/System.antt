-- ===== src/Probes/System.antt =====
-- The probed nodes and their tasks together: src/probes/mod.rs.
-- The tasks run beside the discovery loop and share with it only their stop channels. A turn of a task
-- is placed where it ends; its looks at the channel may then still miss a stop that was sent meanwhile.
pub mod Coherent
pub mod Refines
pub mod Places
pub mod Latest
pub mod Loop
pub mod Apart
pub mod Tame
pub mod Order
pub mod Departed
use probes.Prelude.{
  ℕ, ◌≢◌, ◌≡◌, List, [], ◌∷◌, ◌++◌, map, length, drop, modify, get_elem?, In, some,
}
use probes.Prelude.Map.{Map}
use probes.Memcached.Cursor.{Buf}
use probes.Prelude.Text.{Text}
use probes.Consul.Node.{ConsulClient, ServiceNode}
use probes.Consul.Http.Keys.{IsKeyed}
use probes.Probes.Node
use probes.Probes.Node.{ProbeNode, TryRecv, message, closed, World, Task, crashed, begin, step}
use probes.Probes.Services
use probes.Probes.Services.{Spawned, ProbeServices, sync}

-- The node that a task is made for.
abbrev pub probe_node : Spawned → ProbeNode
probe_node t =
    Node.new t.service_node.service_name t.service_node.ip t.service_node.port t.interval t.receiver

unfoldable pub start_node_probe : Spawned → Task
start_node_probe t = begin (probe_node t)

-- The task at position `i` holds the receiver of channel `i`.
pub record System : Type 0 where
  pub services : ProbeServices
  pub tasks : List Task

-- Before the first discovery.
unfoldable pub boot : ConsulClient → Text → ℕ → System
boot client tag interval = record { services = Services.new client tag interval; tasks = [] }

pub data Event : Type 0 where
  -- a discovery has found these nodes
  discovered : Map ServiceNode → Event
  -- the task of a channel makes a turn, with these answers
  turned : ℕ → World → Event

unfoldable pub apply : Buf → Event → System → System
apply src (discovered nodes) s =
    let services : ProbeServices = sync nodes s.services in
    record {
      services = services;
      tasks = s.tasks ++ map start_node_probe (drop (length s.tasks) services.spawned);
    }
apply src (turned i w) s = record s { tasks = modify s.tasks i (step src w) }

unfoldable pub run : Buf → List Event → System → System
run src [] s = s
run src (e ∷ es) s = run src es (apply src e s)

-- What may happen: a discovery has each node under its own key; a task hears of a stop only if one was
-- sent on its channel, of whose sender nobody disposes otherwise; and its probe does not panic.
pub record MayTurn (src : Buf) (s : System) (i : ℕ) (w : World) : Type 0 where
  pub told : (j : ℕ) → w.polls j ≡ message → In i s.services.stopped
  pub open_channel : (j : ℕ) → w.polls j ≢ closed
  pub sound : (t : Task) → get_elem? s.tasks i ≡ some t → (step src w t).phase ≢ crashed

abbrev pub MayHappen : Buf → System → Event → Type 0
MayHappen src s (discovered nodes) = IsKeyed nodes
MayHappen src s (turned i w) = MayTurn src s i w

abbrev pub Admissible : Buf → List Event → System → Type 0
Admissible src [] s = Unit {0}
Admissible src (e ∷ es) s = MayHappen src s e × Admissible src es (apply src e s)
