-- ===== src/Tests/Gone.antt =====
-- A node of src/probes/mod.rs that is found, and then gone.
use probes.Prelude.{ℕ, ◌≡◌, ◌≢◌, refl, List, [], ◌∷◌, In, get_elem?, some, false, inr, arith}
use probes.Prelude.Bytes.{bytes_eq}
use probes.Prelude.Map
use probes.Prelude.Map.{contains_key}
use probes.Prelude.Text.{Text, text}
use probes.Memcached.Client.{status_code}
use probes.Probes.Node
use probes.Probes.Node.{Task, connecting, finished}
use probes.Probes.Node.Series.{replay}
use probes.Probes.System.{System, Event, discovered, turned, boot, apply, run, Admissible}
use probes.Probes.System.Departed.{InWorld, run-forgets}
use probes.Consul.Node.{ServiceNode}
use probes.Tests.Instances.{cursor_buf, count_table}
use probes.Tests.Discovery.{found}
use probes.Tests.Task.{stopping, stopping-ToldToStop, stopping-Connects, stopping-IsSafe}
use probes.Tests.Whole.{client, found-IsKeyed}

abbrev key : Text
key = text "web:10.0.0.1:11213"

abbrev first : List Event
first = discovered found.nodes ∷ []

abbrev eight_turns : List Event
eight_turns =
    turned 0 stopping
    ∷ turned 0 stopping
    ∷ turned 0 stopping
    ∷ turned 0 stopping
    ∷ turned 0 stopping
    ∷ turned 0 stopping
    ∷ turned 0 stopping
    ∷ turned 0 stopping
    ∷ []

abbrev probing_one : System
probing_one = run cursor_buf first (boot client (text "probed") 1000)

abbrev task : Task
task = record {
  node = record {
    cluster_name = text "web";
    ip = text "10.0.0.1";
    port = 11213;
    socket = text "10.0.0.1:11213";
    interval_check_ms = 1000;
    stop_probe_resp_rx = 0;
  };
  phase = connecting;
  connected = 0;
  polled = 0;
  probed = 0;
  calls = [];
  slept = 0;
}

is_kept : Map.get key probing_one.services.probe_nodes ≡ some 0
unfolding run apply boot Map.get probes.Probes.Services.sync probes.Probes.Services.stop_nodes_probe
    probes.Probes.Services.start_nodes_probe contains_key probes.Probes.Services.new Map.insert
    bytes_eq
is_kept = refl

is_started : get_elem? probing_one.tasks 0 ≡ some task
unfolding run apply boot probes.Probes.Services.sync probes.Probes.Services.stop_nodes_probe
    probes.Probes.Services.start_nodes_probe contains_key probes.Probes.Services.new Map.insert
    bytes_eq probes.Probes.System.start_node_probe Node.begin Node.new probes.Prelude.Text.decimal
is_started = refl

first-may : Admissible cursor_buf first (boot client (text "probed") 1000)
first-may = (found-IsKeyed, tt)

is_gone : contains_key {V = ServiceNode} key [] ≡ false
unfolding contains_key Map.get
is_gone = refl

eight_turns-InWorld : InWorld 0 stopping eight_turns
eight_turns-InWorld = (
  λ e. refl,
  (λ e. refl, (λ e. refl, (λ e. refl, (λ e. refl, (λ e. refl, (λ e. refl, (λ e. refl, tt))))))),
)

run-forgets_example :
    In 0 (apply cursor_buf (discovered []) probing_one).services.stopped
    × (Node.to_string task.node ≡ key)
    × ((t' : Task) × (get_elem? (run cursor_buf (discovered [] ∷ eight_turns) probing_one).tasks 0
          ≡ some t')
        × (t'.phase ≡ finished)
        × (replay count_table t'.calls
              (λ ls. 7)
              (text "web" ∷ text "10.0.0.1:11213" ∷ text "KeyNotFound" ∷ text "get" ∷ [])
            ≡ 0))
run-forgets_example =
    run-forgets count_table cursor_buf first eight_turns probing_one client (text "probed") 1000 []
      key 0 3 stopping task (λ ls. 7) 1 (text "KeyNotFound") (text "get") first-may refl is_kept
      is_gone is_started (cc) stopping-ToldToStop stopping-Connects (stopping-IsSafe task tt (cc))
      eight_turns-InWorld (omega arith) (unfold status_code in refl) (inr refl)
