-- ===== src/Tests/Live.antt =====
-- The program of src/bin/mempoke.rs with an agent and a node that answer.
use probes.Prelude.Int.{pos}
use probes.Prelude.Utf8.{from_utf8}
use probes.Consul.Http.{ConsulError, list_matching_nodes}
use probes.Consul.Node.{ServiceNodes}
use probes.Prelude.{
  ◌≡◌, ◌⊎◌, arith, sym, ap, ◌∙◌, subst, ◌≢◌, refl, List, [], ◌∷◌, ◌++◌, All, In, Option, none, some,
  Bool, true, false, Bool-cases, if◌then◌else◌, inl, inr, Result, ok, err, returns,
}
use probes.Prelude.Bytes.{bytes_eq}
use probes.Prelude.Map
use probes.Prelude.Text.{Text, text}
use probes.Consul.Http.{Agent, Response}
use probes.Consul.Http.Calm.{list_matching_nodes-returns}
use probes.Probes.System.Apart.{Documented-IsCalm}
use probes.Tests.Instances.{
  cursor_buf, simple_json, whole_float, Value, catalog, catalog_text, node_text, node_value, item,
  empty_array, as_object, as_array, from_str, string_value, number_value, fields, items, as_str,
  as_u64,
}
use probes.TokenBucket.{wait_for, need_to_wait, available_token_since, update_counter}
use probes.Probes.Watch.Turns.{IsSound}
use probes.Probes.Watch.Endless.{init_probing-goes_on}
use probes.Probes.Watch.{
  init_probing, watch_matching_services, Watching, discover, on_discovery, turn,
}
use probes.Probes.System.{Event, discovered, turned}
use probes.Probes.System.Latest.{latest}
use probes.Probes.System.Loop.{Happening, looped, task_turned, found_then, then_events, events}
use probes.Probes.System.Places.{ProbesExactly}
use probes.Probes.System.Tame.{AreTame}
use probes.Mempoke.{ticked, going, main}
use probes.Mempoke.Probing.{loop_of, boot_of, system_after, main-probes}
use probes.Tests.Discovery.{down, found}
use probes.Tests.Loop.{tick, down-IsCalm}
use probes.Tests.Program.{environment, settings, environment-Starts}
use probes.Tests.Task.{answering}
use probes.Tests.Whole.{answering-TameTurn}
use probes.Tests.Agent.{local_agent, local_agent-Documented}

list_matching_nodes-returns_example :
    (r : Result ServiceNodes ConsulError) × (list_matching_nodes simple_json local_agent
        (text "http://localhost:8500")
        (pos 0)
        (text "probed")
      ≡ returns r)
list_matching_nodes-returns_example =
    list_matching_nodes-returns simple_json local_agent (text "http://localhost:8500")
      (text "probed") (pos 0) local_agent-Documented.conforming

-- The agent answers, and then it is down.
init_probing_example :
    (w : Watching) × (watch_matching_services whole_float simple_json
        (init_probing (text "probed") (text "http://localhost:8500") 1000 77)
        (tick local_agent ∷ tick down ∷ [])
      ≡ returns (ok w))
    × IsSound w
init_probing_example =
    init_probing-goes_on whole_float simple_json (text "probed") (text "http://localhost:8500") 1000
      77 (tick local_agent ∷ tick down ∷ [])
      (Documented-IsCalm simple_json local_agent local_agent-Documented, (down-IsCalm, tt))

local_discovered :
    list_matching_nodes simple_json local_agent
      (text "http://localhost:8500")
      (pos 0)
      (text "probed")
    ≡ returns (ok found)
unfolding list_matching_nodes probes.Consul.Http.http_call bytes_eq probes.Consul.Http.query_uri_of
    probes.Prelude.Numbers.show_ℤ probes.Prelude.Text.decimal probes.Prelude.Numbers.parse_i64
    probes.Prelude.Utf8.from_utf8 probes.Consul.Extract.extract_matching_services as_object from_str
    as_array probes.Tests.Instances.value_at Map.get as_str
    probes.Consul.Http.list_nodes_for_service probes.Consul.Extract.extract_nodes fields
    probes.Consul.Extract.get_watch_index items probes.Consul.Node.to_string
    probes.Consul.Extract.get_service_address_port probes.Consul.Extract.is_matching_service as_u64
    Map.insert
local_discovered = refl

-- The loop makes a turn, and the task of the node that is found connects and probes.
abbrev happenings : List Happening
happenings = looped (tick local_agent) ∷ task_turned 0 answering ∷ task_turned 0 answering ∷ []

abbrev happened : List Event
happened = discovered found.nodes ∷ turned 0 answering ∷ turned 0 answering ∷ []

abbrev local_loop : Watching
local_loop = loop_of environment settings

happenings-happened : events whole_float simple_json local_loop happenings ≡ happened
unfolding events found_then then_events turn discover on_discovery wait_for need_to_wait
    available_token_since update_counter list_matching_nodes probes.Consul.Http.http_call bytes_eq
    probes.Consul.Http.query_uri_of probes.Probes.Watch.init_probing probes.Probes.Watch.start
    probes.Probes.Services.new probes.TokenBucket.new
happenings-happened = rw local_discovered refl

happened-AreTame :
    AreTame cursor_buf (events whole_float simple_json local_loop happenings) (boot_of settings)
happened-AreTame =
    subst (λ es. AreTame cursor_buf es (boot_of settings)) (sym happenings-happened)
      (answering-TameTurn 0 _, (answering-TameTurn 0 _, tt))

main-probes_example :
    (w : Watching) × (main whole_float simple_json environment (ticked (tick local_agent) ∷ [])
      ≡ going w)
    × ((system_after simple_json whole_float cursor_buf environment settings happenings).services
        ≡ w.services)
    × ProbesExactly cursor_buf
        (system_after simple_json whole_float cursor_buf environment settings happenings)
        (λ k. Map.get k (latest (events whole_float simple_json local_loop happenings) []))
main-probes_example =
    main-probes simple_json whole_float cursor_buf environment settings
      (ticked (tick local_agent) ∷ []) happenings environment-Starts (λ f. f) refl
      (local_agent-Documented, tt) happened-AreTame
