-- ===== src/Probes/Watch.antt =====
-- `watch_matching_services` and `init_probing` of src/probes/mod.rs: the discovery loop.
-- One turn of the loop takes a `Tick`: the readings of the clock in `wait_for`, and what the consul
-- agent answers to the calls of this turn.
pub mod Turns
pub mod Endless
pub mod Pace
use probes.Prelude.{ℕ, List, [], ◌∷◌, ◌++◌, Result, ok, err, Outcome, returns, panics, ◌>>=◌}
use probes.Prelude.Float.{Float}
use probes.Prelude.Int.{ℤ, pos}
use probes.Prelude.Text.{Text}
use probes.Metrics.{MetricCall, inc_failure_services_discovery}
use probes.TokenBucket
use probes.TokenBucket.{TokenBucket, BucketError, Readings, Waited, wait_for}
use probes.Consul.Json.{Json}
use probes.Consul.Node
use probes.Consul.Node.{ConsulClient, ServiceNodes}
use probes.Consul.Http.{ConsulError, Agent, Try, list_matching_nodes}
use probes.Probes.Services
use probes.Probes.Services.{ProbeServices, sync}

-- The variables of the loop, and the calls that it has made on the metrics.
pub record Watching : Type 0 where
  pub services : ProbeServices
  pub token_bucket : TokenBucket
  pub index : ℤ
  pub calls : List MetricCall

pub record Tick : Type 0 where
  pub readings : Readings
  pub agent : Agent

-- The tokens that a turn takes.
abbrev pub turn_tokens : ℕ
turn_tokens = 60

-- What `watch_matching_services` sets up, where the clock reads `now`.
unfoldable pub start : ProbeServices → ℕ → Watching
start services now = record {
  services = services;
  token_bucket = TokenBucket.new 180 1 now;
  index = pos 0;
  calls = [];
}

-- `init_probing`, up to the loop.
unfoldable pub init_probing : Text → Text → ℕ → ℕ → Watching
init_probing services_tag consul_fqdn interval_check_ms now =
    start (Services.new (Node.new consul_fqdn) services_tag interval_check_ms) now

-- The `match` on the discovery.
unfoldable pub on_discovery : Watching → Try ServiceNodes → Outcome Watching
on_discovery w (returns (ok discovered_nodes)) =
    returns (record w {
      index = discovered_nodes.index;
      services = sync discovered_nodes.nodes w.services;
    })
on_discovery w (returns (err e)) =
    returns (record w { index = pos 0; calls = w.calls ++ inc_failure_services_discovery ∷ [] })
on_discovery w panics = panics

module _ (float : Float) (json : Json) where
  unfoldable pub discover : Watching → Agent → Try ServiceNodes
  discover w agent =
      list_matching_nodes json agent w.services.consul_client.fqdn w.index w.services.tag

  -- `?` on the result of `wait_for`, and the rest of the turn.
  after_wait :
      Watching → Agent → Result (Unit {0}) BucketError → Outcome (Result Watching BucketError)
  after_wait w agent (ok _) = do w' ← on_discovery w (discover w agent); returns (ok w')
  after_wait w agent (err issue) = returns (err issue)

  -- One turn: the loop goes on with the new state, or the function returns the error.
  unfoldable pub turn : Watching → Tick → Outcome (Result Watching BucketError)
  unfolding after_wait
  turn w tick = do
    waited ← wait_for float w.token_bucket turn_tokens tick.readings
    after_wait (record w { token_bucket = waited.bucket }) tick.agent waited.result

  -- `?` on the result of a turn.
  next_turn :
      (Watching → Outcome (Result Watching BucketError))
      → Result Watching BucketError
      → Outcome (Result Watching BucketError)
  next_turn more (ok w) = more w
  next_turn more (err issue) = returns (err issue)

  -- The loop, as far as the ticks go.
  unfoldable pub watch_matching_services :
      Watching → List Tick → Outcome (Result Watching BucketError)
  unfolding next_turn
  watch_matching_services w [] = returns (ok w)
  watch_matching_services w (tick ∷ ticks) =
      turn w tick >>= next_turn (λ w'. watch_matching_services w' ticks)
