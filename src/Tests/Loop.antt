-- ===== src/Tests/Loop.antt =====
-- The probed nodes and the discovery loop of src/probes/mod.rs with concrete discoveries.
use probes.Prelude.{◌+◌, ◌-◌, ◌*◌, ◌≤◌, ◌≡◌, refl, [], ◌∷◌, ok, err, returns, arith}
use mathlib.Core.List.Perm
use probes.Prelude.Int.{ℤ, pos}
use probes.Prelude.Map
use probes.Prelude.Map.{contains_key, Distinct}
use probes.Prelude.Text.{Text, text}
use probes.Metrics.{inc_failure_services_discovery}
use probes.TokenBucket.{
  Readings, Waited, nanos_per_sec, wait_for, need_to_wait, available_token_since, update_counter,
}
use probes.Consul.Node.{ServiceNode}
use probes.Consul.Http.{Agent, transport, list_matching_nodes, http_call}
use probes.Probes.Services.{ProbeServices, sync}
use probes.Probes.Services.Sync.{sync-contains}
use probes.Probes.Services.Ledger.{Ledger, sync-Ledger}
use probes.Probes.Watch.{Watching, Tick, turn_tokens, discover, on_discovery, turn}
use probes.Probes.Watch.Turns.{IsSound, IsCalm}
use probes.Probes.Watch.Pace.{Turns, begun, turned, Turns-le-rate}
use probes.Tests.Instances.{simple_json, whole_float}
use probes.Tests.Discovery.{down, found, node}

-- One node is probed, which is not discovered any more.
abbrev pub old_key : Text
old_key = text "web:10.0.0.9:11213"

abbrev pub services : ProbeServices
services = record {
  consul_client = record { fqdn = text "http://consul" };
  tag = text "probed";
  interval_check_ms = 1000;
  probe_nodes = (old_key, 0) ∷ [];
  channels = 1;
  spawned =
      record {
        service_node = record { service_name = text "web"; ip = text "10.0.0.9"; port = 11213 };
        interval = 1000;
        receiver = 0;
      }
      ∷ [];
  stopped = [];
}

abbrev both : Map.Map ServiceNode
both =
    (text "web:10.0.0.1:11213", node)
    ∷ (old_key, record { service_name = text "web"; ip = text "10.0.0.9"; port = 11213 })
    ∷ []

services-Ledger : Ledger services
unfolding Map.get
services-Ledger = record { distinct = (refl, tt); balance = Perm.rfl; fresh = refl }

sync-contains_example :
    contains_key old_key (sync found.nodes services).probe_nodes ≡ contains_key old_key found.nodes
sync-contains_example = sync-contains found.nodes services old_key

sync-Ledger_example : Ledger (sync found.nodes services)
sync-Ledger_example = sync-Ledger found.nodes services services-Ledger

abbrev pub watching : Watching
watching = record {
  services = services;
  token_bucket = record { capacity = 180; quantum = 1; available = 180; last = 0 };
  index = pos 7;
  calls = [];
}

pub watching-IsSound : IsSound watching
watching-IsSound = record {
  rate = record { within = omega arith; unit = refl; exact = omega arith };
  room = omega arith;
  ledger = services-Ledger;
}

abbrev pub readings : Readings
readings = record { checked = nanos_per_sec; taken = nanos_per_sec; woken = nanos_per_sec }

abbrev pub tick : Agent → Tick
tick a = record { readings = readings; agent = a }

down-fails :
    (fqdn tag : Text) (index : ℤ)
    → list_matching_nodes simple_json down fqdn index tag ≡ returns (err (transport 111))
unfolding list_matching_nodes http_call
down-fails fqdn tag index = refl

pub down-IsCalm : IsCalm simple_json down
down-IsCalm fqdn tag index = rw (down-fails fqdn tag index) (cc)

abbrev pub waited : Waited
waited = record {
  bucket = record { capacity = 180; quantum = 1; available = 120; last = nanos_per_sec };
  slept = 0;
  result = ok tt;
}

abbrev after_turn : Watching
after_turn = record watching {
  token_bucket = waited.bucket;
  index = pos 0;
  calls = inc_failure_services_discovery ∷ [];
}

one_turn : Turns whole_float simple_json watching 1 after_turn
unfolding wait_for need_to_wait available_token_since update_counter turn on_discovery discover
    list_matching_nodes http_call
one_turn =
    turned (tick down) waited begun refl
      (record { before = omega arith; between = omega arith; rested = omega arith }) refl

Turns-le-rate_example : 1 * turn_tokens * nanos_per_sec ≤ 180 * nanos_per_sec + (nanos_per_sec - 0)
Turns-le-rate_example =
    Turns-le-rate whole_float simple_json watching watching-IsSound.rate one_turn
