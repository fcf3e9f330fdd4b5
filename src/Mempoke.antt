-- ===== src/Mempoke.antt =====
-- `main` of src/bin/mempoke.rs.
-- The parser of the crate `argparse`, the subscriber for the console, the runtime and the web server are
-- the environment. A `Moment` is what happens next beside the calls of `main`: a turn of the discovery
-- loop, or the end of the task of the endpoint.
pub mod Endings
pub mod Probing
use probes.Prelude.{
  ℕ, List, [], ◌∷◌, Bool, true, false, if◌then◌else◌, Result, ok, err, Outcome, returns, panics,
}
use probes.Prelude.Float.{Float}
use probes.Prelude.Text.{Text, text}
use probes.TokenBucket.{BucketError}
use probes.Consul.Json.{Json}
use probes.Metrics.Endpoint.{WebServer, init_prometheus_http_endpoint}
use probes.Probes.Watch.{Watching, Tick, init_probing, turn}

pub record Settings : Type 0 where
  pub consul_fqdn : Text
  pub http_port : ℕ
  pub services_tag : Text
  pub tokio_console : Bool
  pub interval_check_ms : ℕ

unfoldable pub defaults : Settings
defaults = record {
  consul_fqdn = text "http://localhost:8500";
  http_port = 8080;
  services_tag = text "";
  tokio_console = false;
  interval_check_ms = 1000;
}

-- The variable that an option stores to.
pub data Variable : Type 0 where
  consul_fqdn services_tag tokio_console http_port interval_check_ms : Variable

pub record Argument : Type 0 where
  pub variable : Variable
  pub name : Text
  pub required : Bool

-- What is told to the parser.
unfoldable pub arguments : List Argument
arguments =
    record { variable = consul_fqdn; name = text "--consul-fqdn"; required = false }
    ∷ record { variable = services_tag; name = text "--services-tag"; required = true }
    ∷ record { variable = tokio_console; name = text "--tokio-console"; required = false }
    ∷ record { variable = http_port; name = text "--http-port"; required = false }
    ∷ record { variable = interval_check_ms; name = text "--interval-check-ms"; required = false }
    ∷ []

pub record Environment : Type 0 where
  -- `parse_args_or_exit` on the command line: the settings, or the code that the process exits with
  pub parse_args_or_exit : List Argument → Settings → Result Settings ℕ
  -- `console_subscriber::init`
  pub init_console : Outcome (Unit {0})
  -- `Builder::build`
  pub build : Result (Unit {0}) Text
  -- the reading of the clock when the token bucket is made
  pub now : ℕ

pub data Moment : Type 0 where
  -- the discovery loop makes a turn
  ticked : Tick → Moment
  -- the web server has answered
  ended : WebServer → Moment

-- How far the process has come.
pub data Process : Type 0 where
  -- the discovery loop goes on
  going : Watching → Process
  -- `main` has returned
  returned : Result (Unit {0}) ℕ → Process
  -- the process has exited with this code while it read the command line
  exited : ℕ → Process
  -- `main` has panicked
  panicked : Process
  -- the process has aborted
  aborted : Process

-- The body of the task that is spawned for the endpoint, where the process is otherwise at `p`.
on_endpoint : Result (Unit {0}) Text → Process → Process
on_endpoint (ok _) p = p
on_endpoint (err issue) p = aborted

-- `block_on` on a turn of `init_probing`, and the `if let` on the error that it returns.
on_turn : (Watching → Process) → Outcome (Result Watching BucketError) → Process
on_turn more (returns (ok w)) = more w
on_turn more (returns (err issue)) = returned (err 2)
on_turn more panics = panicked

on_console : Outcome (Unit {0}) → Process → Process
on_console (returns _) p = p
on_console panics p = panicked

module _ (float : Float) (json : Json) where
  -- From where the endpoint is spawned, as far as the moments go.
  unfoldable pub probing : ℕ → Watching → List Moment → Process
  unfolding on_turn on_endpoint
  probing port w [] = going w
  probing port w (ticked tick ∷ ms) = on_turn (λ w'. probing port w' ms) (turn float json w tick)
  probing port w (ended server ∷ ms) =
      on_endpoint (init_prometheus_http_endpoint server port) (probing port w ms)

  -- The `match` on the runtime.
  on_runtime : Result (Unit {0}) Text → Settings → ℕ → List Moment → Process
  on_runtime (ok _) s now ms =
      probing s.http_port (init_probing s.services_tag s.consul_fqdn s.interval_check_ms now) ms
  on_runtime (err issue) s now ms = returned (err 1)

  -- What follows the command line.
  on_parsed : Environment → Result Settings ℕ → List Moment → Process
  unfolding on_console on_runtime
  on_parsed env (ok s) ms =
      let rest : Process = on_runtime env.build s env.now ms in
      if s.tokio_console then on_console env.init_console rest else rest
  on_parsed env (err code) ms = exited code

  unfoldable pub main : Environment → List Moment → Process
  unfolding on_parsed
  main env ms = on_parsed env (env.parse_args_or_exit arguments defaults) ms
