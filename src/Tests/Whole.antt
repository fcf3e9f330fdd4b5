-- ===== src/Tests/Whole.antt =====
-- The probed nodes and their tasks together, src/probes/mod.rs, at concrete events.
use probes.Prelude.{ℕ, ◌≡◌, refl, subst, [], ◌∷◌, List, some, Bool-cases, inl, inr, ok, returns}
use probes.Prelude.Bytes.{bytes_eq}
use probes.Prelude.Int.{pos}
use probes.Prelude.Map
use probes.Prelude.Text.{Text, text}
use probes.TokenBucket.{wait_for, need_to_wait, available_token_since, update_counter}
use probes.Consul.Node.{ConsulClient, ServiceNode}
use probes.Consul.Http.Keys.{IsKeyed, list_matching_nodes-IsKeyed}
use probes.Probes.Services.{sync}
use probes.Probes.Watch.{Watching, discover, on_discovery, turn, watch_matching_services}
use probes.Probes.System.{System, Event, discovered, turned, boot, run, Admissible}
use probes.Probes.System.Coherent.{boot-IsCoherent}
use probes.Probes.System.Refines.{view, replay, run_refines}
use probes.Probes.System.Places.{ProbesExactly}
use probes.Probes.System.Tame.{TameTurn, AreIdle, AreTame-Admissible}
use probes.Probes.System.Latest.{latest, ArePlain, none-ArePlain, run-latest}
use probes.Probes.System.Loop.{Happening, looped, task_turned, events, Keyed, run-events}
use probes.Tests.Instances.{cursor_buf, simple_json, whole_float}
use probes.Tests.Discovery.{agent, found, node}
use probes.Tests.Discovery
use probes.Consul.Node.Keys.{IsPlain}
use probes.Tests.Catalog.{node-IsPlain}
use probes.Tests.Task.{answering, answering-IsTame}
use probes.Tests.Loop.{services, watching, watching-IsSound, tick, waited}

abbrev pub client : ConsulClient
client = record { fqdn = text "http://consul" }

-- A node is found, its task connects and probes it, and the node is gone.
abbrev found_and_gone : List Event
found_and_gone =
    discovered found.nodes ∷ turned 0 answering ∷ turned 0 answering ∷ discovered [] ∷ []

pub found-IsKeyed : IsKeyed found.nodes
found-IsKeyed =
    list_matching_nodes-IsKeyed simple_json agent (text "http://consul") (text "probed") (pos 7)
      found Discovery.discovered

node_alone : (k : Text) (n : ServiceNode) → Map.get k found.nodes ≡ some n → node ≡ n
unfolding Map.get
node_alone k n e = elim (Bool-cases (bytes_eq (text "web:10.0.0.1:11213") k)) [
  | inl same ↦ cc (rw same at e)
  | inr other ↦ absurd (cc (rw other at e))
]

found-ArePlain : ArePlain found.nodes
found-ArePlain = record {
  keyed = found-IsKeyed;
  plain = λ k n e. subst IsPlain (node_alone k n e) node-IsPlain;
}

pub answering-TameTurn : (i : ℕ) (s : System) → TameTurn s i answering
answering-TameTurn i s = record {
  told = λ j e. absurd (cc);
  open_channel = λ j e. cc;
  tame = answering-IsTame;
}

pub none_yet : AreIdle (boot client (text "probed") 1000).tasks
unfolding boot
none_yet = tt

may : Admissible cursor_buf found_and_gone (boot client (text "probed") 1000)
may =
    AreTame-Admissible cursor_buf found_and_gone (boot client (text "probed") 1000) none_yet
      (found-ArePlain, (none-ArePlain, tt)) (answering-TameTurn 0 _, (answering-TameTurn 0 _, tt))

run_refines_example :
    view (run cursor_buf found_and_gone (boot client (text "probed") 1000))
    ≡ replay found_and_gone (view (boot client (text "probed") 1000))
run_refines_example =
    run_refines cursor_buf found_and_gone (boot client (text "probed") 1000)
      (boot-IsCoherent client (text "probed") 1000) may

run-latest_example :
    ProbesExactly cursor_buf
      (run cursor_buf found_and_gone (boot client (text "probed") 1000))
      (λ k. Map.get k (latest found_and_gone []))
run-latest_example =
    run-latest cursor_buf found_and_gone client (text "probed") 1000 may
      (found-ArePlain, (none-ArePlain, tt))

-- The task makes a turn, and then the loop.
abbrev happenings : List Happening
happenings = task_turned 0 answering ∷ looped (tick agent) ∷ []

abbrev beside : System
beside = record { services = services; tasks = [] }

abbrev after_loop : Watching
after_loop = record {
  services = sync found.nodes services;
  token_bucket = waited.bucket;
  index = pos 42;
  calls = [];
}

looped_once :
    watch_matching_services whole_float simple_json watching (tick agent ∷ [])
    ≡ returns (ok after_loop)
unfolding wait_for need_to_wait available_token_since update_counter turn on_discovery discover
    watch_matching_services
looped_once = rw Discovery.discovered refl

run-events_example :
    ((run cursor_buf (events whole_float simple_json watching happenings) beside).services
      ≡ after_loop.services)
    × Keyed (events whole_float simple_json watching happenings)
run-events_example =
    run-events whole_float simple_json cursor_buf watching after_loop happenings beside
      watching-IsSound refl looped_once
