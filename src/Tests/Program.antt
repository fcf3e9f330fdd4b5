-- ===== src/Tests/Program.antt =====
-- The program of src/bin/mempoke.rs in a concrete environment.
use probes.Prelude.{ℕ, ◌≡◌, refl, List, [], ◌∷◌, ◌⊎◌, false, Result, ok, err, returns}
use probes.Prelude.Text.{Text, text}
use probes.Metrics.Endpoint.{WebServer}
use probes.Probes.Watch.{Watching, init_probing, watch_matching_services}
use probes.Mempoke.{Settings, Environment, Moment, ticked, ended, going, aborted, main}
use probes.Mempoke.Endings.{EndpointFails, ticks, Starts, main-going, main-returned}
use probes.Tests.Instances.{simple_json, whole_float}
use probes.Tests.Discovery.{down}
use probes.Tests.Loop.{tick, down-IsCalm}

abbrev pub settings : Settings
settings = record {
  consul_fqdn = text "http://localhost:8500";
  http_port = 8080;
  services_tag = text "probed";
  tokio_console = false;
  interval_check_ms = 1000;
}

abbrev pub environment : Environment
environment = record {
  parse_args_or_exit = λ arguments defaults. ok settings;
  init_console = returns tt;
  build = ok tt;
  now = 77;
}

-- Somebody else holds the port.
abbrev taken : WebServer
taken = record { try_bind = λ app addr. err (text "address in use") }

abbrev moments : List Moment
moments = ticked (tick down) ∷ ended taken ∷ ticked (tick down) ∷ []

pub environment-Starts : Starts environment settings
environment-Starts = record { parsed = refl; console = λ h. refl; built = refl }

main-going_example :
    ((main whole_float simple_json environment moments ≡ aborted) × EndpointFails 8080 moments)
    ⊎ ((w : Watching) × (main whole_float simple_json environment moments ≡ going w)
        × (watch_matching_services whole_float simple_json
              (init_probing (text "probed") (text "http://localhost:8500") 1000 77)
              (ticks moments)
            ≡ returns (ok w))
        × ¬ EndpointFails 8080 moments)
main-going_example =
    main-going whole_float simple_json environment settings moments environment-Starts
      (down-IsCalm, (down-IsCalm, tt))

-- The runtime cannot be built.
abbrev no_threads : Environment
no_threads = record environment { build = err (text "no threads") }

abbrev code : Result (Unit {0}) ℕ
code = err 1

main-returned_example : (code ≡ err 1) × ((issue : Text) × (no_threads.build ≡ err issue))
unfolding main
main-returned_example = main-returned whole_float simple_json no_threads moments code refl
